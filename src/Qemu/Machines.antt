-- ===== src/Qemu/Machines.antt =====
-- internal/qemu/machines.go: the request for the machines, and what Run and Destroy do. Talos' provisioner
-- and its addresses, the UUIDs and the file system are parameters.
pub mod Laws
use omni_infra_provider_bare.Base.{
  Bool, List, Option, String, [], codes, contains, if◌then◌else◌, none, not, some, str_eq, suc,
  true, zero, ℕ, ◌&&◌, ◌++◌, ◌+◌, ◌∷◌,
}
use omni_infra_provider_bare.Base.Int.{ℤ}
use omni_infra_provider_bare.Effects.{Done, Result, err, ok}
use omni_infra_provider_bare.Qemu.Bmc.{attach_kcs, bmc_extra_qemu_args, bmc_socket_path}

-- type Options, less what names the network.
pub record Options : Type 0 where
  pub num_machines : ℕ
  pub mem_size : ℤ
  pub disk_size : ℕ
  pub default_boot_order : String
  pub uefi_enabled : Bool
  pub pxe_boot_via_dhcpd : Bool
  pub virtual_bmc : Bool

-- provision.NodeRequest, with its one address and its one disk.
pub record NodeRequest : Type 0 where
  pub name : String
  pub ip : String
  pub memory : ℤ
  pub nano_cpus : ℤ
  pub disk_size : ℕ
  pub skip_injecting_config : Bool
  pub pxe_booted : Bool
  pub default_boot_order : String
  pub tftp_server : String
  pub ipxe_boot_filename : String
  pub extra_qemu_args : List String

-- provision.ClusterRequest, what differs between calls of it.
pub record ClusterRequest : Type 0 where
  pub gateway : String
  pub nodes : List NodeRequest

pub data ReflectError : Type 0 where
  not_exist : ReflectError
  not_reflected : String → ReflectError

pub data MachinesError : Type 0 where
  no_gateway no_provisioner not_loaded not_created not_destroyed not_served : String → MachinesError
  no_offset : ℕ → String → MachinesError
  not_attachable : MachinesError

-- The text of the n-th address of the subnet, the UUIDs in the order in which they are drawn, the paths'
-- join, the platform, and the reconnect option that qemuReconnectOpt finds.
pub record Host : Type 0 where
  pub nth_ip : ℕ → Result String String
  pub uuid : ℕ → String
  pub filepath_join : String → String → String
  pub state_path : String
  pub goos : String
  pub goarch : String
  pub reconnect_opt : String

-- The switch on the firmware in createNew.
unfoldable pub boot_filename : (uefi_enabled : Bool) (goarch : String) → String
boot_filename uefi_enabled goarch =
    if not uefi_enabled
    then "undionly.kpxe"
    else if str_eq goarch "arm64"
    then "snp-arm64.efi"
    else "snp.efi"

module _ (host : Host) (o : Options) (nano_cpus : ℤ) where
  abbrev pub extra_args : String → List String
  unfolding bmc_socket_path bmc_extra_qemu_args
  extra_args name =
      if o.virtual_bmc && attach_kcs host.goos host.goarch
      then bmc_extra_qemu_args (bmc_socket_path host.filepath_join host.state_path name)
          host.reconnect_opt
      else []

  -- The body of the loop.
  unfoldable pub node_request : (gateway ip name : String) → NodeRequest
  node_request gateway ip name = record {
    name = name;
    ip = ip;
    memory = o.mem_size;
    nano_cpus = nano_cpus;
    disk_size = o.disk_size;
    skip_injecting_config = true;
    pxe_booted = true;
    default_boot_order = o.default_boot_order;
    tftp_server = if o.pxe_boot_via_dhcpd then gateway else "";
    ipxe_boot_filename =
        if o.pxe_boot_via_dhcpd then boot_filename o.uefi_enabled host.goarch else "";
    extra_qemu_args = extra_args name;
  }

  -- The loop from the i-th machine on.
  unfoldable pub node_requests :
      (gateway : String) (left i : ℕ) → Result MachinesError (List NodeRequest)
  node_requests gateway zero i = ok []
  node_requests gateway (suc left) i = elim (host.nth_ip (i + 2)) [
    | err text ↦ err (no_offset (i + 2) text)
    | ok ip ↦ elim (node_requests gateway left (i + 1)) [
      | err e ↦ err e
      | ok rest ↦ ok (node_request gateway ip (host.uuid i) ∷ rest)
    ]
  ]

  -- The request of createNew.
  unfoldable pub cluster_request : Result MachinesError ClusterRequest
  cluster_request = elim (host.nth_ip 1) [
    | err text ↦ err (no_gateway text)
    | ok gateway ↦ elim (node_requests gateway o.num_machines 0) [
      | err e ↦ err e
      | ok nodes ↦ ok (record { gateway = gateway; nodes = nodes })
    ]
  ]

-- What is called of the provisioner. A cluster is a value of its own type.
pub record Provisioner (Cluster : Type 0) : Type 0 where
  pub factory : Option String
  pub reflect : Result ReflectError Cluster
  pub create : ClusterRequest → Result String Cluster
  pub destroy : Cluster → Option String

-- The calls that are made, and the removal of the state.
pub data MachinesStep (Cluster : Type 0) : Type 0 where
  created served destroyed : Cluster → MachinesStep Cluster
  state_removed : MachinesStep Cluster

module _ {Cluster : Type 0} (p : Provisioner Cluster) where
  -- serveBMCs is `serve`, with the error that it returns.
  abbrev create_and_serve :
      (serve : Cluster → Option String) (o : Options)
      → Result MachinesError ClusterRequest
      → List (MachinesStep Cluster) × Result MachinesError Done
  create_and_serve serve o (err e) = ([], err e)
  create_and_serve serve o (ok request) = elim (p.create request) [
    | err text ↦ ([], err (not_created text))
    | ok cluster ↦
        if o.virtual_bmc
        then elim (serve cluster) [
          | some text ↦ (created cluster ∷ served cluster ∷ [], err (not_served text))
          | none ↦ (created cluster ∷ served cluster ∷ [], ok tt)
        ]
        else (created cluster ∷ [], ok tt)
  ]

  -- Run, with the request that createNew makes.
  unfoldable pub run_machines :
      (serve : Cluster → Option String) (o : Options)
      → Result MachinesError ClusterRequest
      → List (MachinesStep Cluster) × Result MachinesError Done
  run_machines serve o request = elim p.factory [
    | some text ↦ ([], err (no_provisioner text))
    | none ↦ elim p.reflect [
      | err (not_reflected text) ↦ ([], err (not_loaded text))
      | ok cluster ↦ if o.virtual_bmc then ([], err not_attachable) else ([], ok tt)
      | err not_exist ↦ create_and_serve serve o request
    ]
  ]

  -- Destroy; the state is removed last, by its `defer`.
  abbrev pub destroy_loaded : List (MachinesStep Cluster) × Result MachinesError Done
  destroy_loaded = elim p.reflect [
    | err not_exist ↦ ([], ok tt)
    | err (not_reflected text) ↦ ([], err (not_loaded text))
    | ok cluster ↦ elim (p.destroy cluster) [
      | none ↦ (destroyed cluster ∷ [], ok tt)
      | some text ↦
          if contains (codes text) (codes "no such network interface")
          then (destroyed cluster ∷ [], ok tt)
          else (destroyed cluster ∷ [], err (not_destroyed text))
    ]
  ]

  unfoldable pub destroy_machines : List (MachinesStep Cluster) × Result MachinesError Done
  destroy_machines = elim p.factory [
    | some text ↦ (state_removed ∷ [], err (no_provisioner text))
    | none ↦ (destroy_loaded.0 ++ (state_removed ∷ []), destroy_loaded.1)
  ]
