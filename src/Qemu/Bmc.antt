-- ===== src/Qemu/Bmc.antt =====
-- internal/qemu/bmc.go: how a guest reaches its emulated BMC, and the start of the BMCs in serveBMCs. The
-- system, the paths and the texts of addresses are parameters.
pub mod Laws
use omni_infra_provider_bare.Base.{
  Bool, Bytes, List, Option, String, [], codes, contains, if◌then◌else◌, none, some, str_eq, ℕ,
  ◌&&◌, ◌++◌, ◌<>◌, ◌∷◌,
}
use omni_infra_provider_bare.Effects.{Result, err, ok}
use omni_infra_provider_bare.VirtualBmc.{Options}

unfoldable pub attach_kcs : (goos goarch : String) → Bool
attach_kcs goos goarch = str_eq goos "linux" && str_eq goarch "amd64"

unfoldable pub bmc_socket_path :
    (filepath_join : String → String → String) (state_path node_name : String) → String
bmc_socket_path filepath_join state_path node_name =
    filepath_join state_path (node_name <> "-bmc.sock")

unfoldable pub bmc_extra_qemu_args : (socket_path reconnect_opt : String) → List String
bmc_extra_qemu_args socket_path reconnect_opt =
    "-chardev"
    ∷ ("socket,id=ipmi0,path=" <> socket_path <> "," <> reconnect_opt)
    ∷ "-device"
    ∷ "ipmi-bmc-extern,id=bmc0,chardev=ipmi0"
    ∷ "-device"
    ∷ "isa-ipmi-kcs,bmc=bmc0"
    ∷ []

-- The loop over the candidates, with exec.LookPath.
unfoldable pub first_found : (look_path : String → Option String) → List String → Option String
first_found look_path [] = none
first_found look_path (candidate ∷ rest) = elim (look_path candidate) [
  | some path ↦ some path
  | none ↦ first_found look_path rest
]

abbrev pub candidates : List String
candidates = "qemu-system-x86_64" ∷ "qemu-kvm" ∷ "/usr/libexec/qemu-kvm" ∷ []

-- `help` is what the binary prints of its chardevs.
unfoldable pub qemu_reconnect_opt :
    (look_path : String → Option String) (help : String → Bytes) → String
unfolding first_found
qemu_reconnect_opt look_path help = elim (first_found look_path candidates) [
  | none ↦ "reconnect-ms=2000"
  | some binary ↦
      if contains (help binary) (codes "reconnect-ms")
      then "reconnect-ms=2000"
      else if contains (help binary) (codes "reconnect")
      then "reconnect=2"
      else "reconnect-ms=2000"
]

-- A node of the provisioned set: its name, and net.JoinHostPort of the gateway and its API's port.
pub record Node : Type 0 where
  pub name : String
  pub api_address : String

abbrev pub bmc_max_users : ℕ
bmc_max_users = 8

-- The socket of a node's BMC, empty where the guests get no KCS device.
unfoldable pub vm_socket_of :
    (goos goarch : String) (filepath_join : String → String → String)
    (state_path node_name : String)
    → String
unfolding attach_kcs bmc_socket_path
vm_socket_of goos goarch filepath_join state_path node_name =
    if attach_kcs goos goarch then bmc_socket_path filepath_join state_path node_name else ""

-- What a BMC is made with; the name and the password of its user are not in the model of its options.
unfoldable pub bmc_options : (vm_socket : String → String) → Node → Options
bmc_options vm_socket node = record {
  bmc_ip = "127.0.0.1";
  vm_socket = vm_socket node.name;
  power_api_url = "http://" <> node.api_address;
  max_users = bmc_max_users;
}

-- The servers that are closed, the name of the node, and the error of its BMC.
pub record StartFailure (A : Type 0) : Type 0 where
  pub closed : List A
  pub node : String
  pub error : String

module _ {A : Type 0} (new : Options → Result String A) (vm_socket : String → String) where
  -- The loop of serveBMCs; `new` is the virtual BMC's New, and `vm_socket` is vm_socket_of.
  unfoldable pub start_all : List Node → (servers : List A) → Result (StartFailure A) (List A)
  start_all [] servers = ok servers
  start_all (node ∷ rest) servers = elim (new (bmc_options vm_socket node)) [
    | err text ↦ err (record { closed = servers; node = node.name; error = text })
    | ok server ↦ start_all rest (servers ++ (server ∷ []))
  ]
