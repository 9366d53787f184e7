-- ===== src/Bmc/Address.antt =====
-- internal/provider/bmc/api/manager.go: the address of a machine's power management API, which is read
-- from the state directory of the test machines. The files and JSON are parameters.
pub mod Laws
mod Tests
use mathlib.Core.List.{reverse}
use omni_infra_provider_bare.Base.{
  Bool, Bytes, List, Option, String, [], codes, has_prefix, if◌then◌else◌, length, none, not, some,
  str_eq, suc, ℕ, ◌==◌, ◌∷◌,
}
use omni_infra_provider_bare.Effects.{Result, err, ok}

-- type launchConfig; the addresses are their texts, and the bind address is its port.
pub record LaunchConfig : Type 0 where
  pub api_bind_port : Option ℕ
  pub node_uuid : String
  pub gateway_addrs : List String
  pub network_gateway_addrs : List String
  pub api_port : ℕ

-- The state directory: its names in order, the contents of a file, and json.Unmarshal.
pub record StateDir : Type 0 where
  pub read_dir : Result String (List String)
  pub read_file : String → Result String Bytes
  pub unmarshal : Bytes → Result String LaunchConfig
  pub join_host_port : String → ℕ → String

pub data AddressError : Type 0 where
  directory_unreadable config_unreadable config_malformed : String → AddressError
  no_gateway no_port : String → AddressError
  no_address : (config_files : ℕ) (machine_id : String) (files : ℕ) → AddressError

abbrev pub has_suffix : String → String → Bool
has_suffix name suffix = has_prefix (reverse (codes suffix)) (reverse (codes name))

-- The two formats of the addresses and of the port.
abbrev pub gateways_of : LaunchConfig → List String
gateways_of conf = elim conf.network_gateway_addrs [ [] ↦ conf.gateway_addrs | g ∷ gs ↦ g ∷ gs ]

abbrev pub port_of : LaunchConfig → ℕ
port_of conf = elim conf.api_bind_port [ some port ↦ port | none ↦ conf.api_port ]

module _ (dir : StateDir) (machine_id : String) where
  abbrev address_at : String → ℕ → List String → Result AddressError String
  address_at name port [] = err (no_gateway name)
  address_at name port (gateway ∷ _) =
      if port == 0 then err (no_port name) else ok (dir.join_host_port gateway port)

  -- What a configuration gives: "" if it is another machine's.
  unfoldable pub address_in : String → LaunchConfig → Result AddressError String
  address_in name conf =
      if not (str_eq conf.node_uuid machine_id)
      then ok ""
      else address_at name (port_of conf) (gateways_of conf)

  unfoldable pub process_config_file : String → Result AddressError String
  unfolding address_in
  process_config_file name = elim (dir.read_file name) [
    | err text ↦ err (config_unreadable text)
    | ok data_read ↦ elim (dir.unmarshal data_read) [
      | err text ↦ err (config_malformed text)
      | ok conf ↦ address_in name conf
    ]
  ]

  -- The loop, with the number of config files so far; a file that fails or gives no address is skipped.
  unfoldable pub read_from : (total config_files : ℕ) → List String → Result AddressError String
  unfolding process_config_file
  read_from total n [] = err (no_address n machine_id total)
  read_from total n (name ∷ names) =
      let other = read_from total n names in
      let next = read_from total (suc n) names in
      if not (has_suffix name ".config") then other else elim (process_config_file name) [
        | err _ ↦ next
        | ok addr ↦ if str_eq addr "" then next else ok addr
      ]

  unfoldable pub read_management_address : Result AddressError String
  unfolding read_from
  read_management_address = elim dir.read_dir [
    | err text ↦ err (directory_unreadable text)
    | ok names ↦ read_from (length names) 0 names
  ]
