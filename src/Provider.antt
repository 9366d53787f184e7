-- ===== src/Provider.antt =====
-- internal/provider/provider.go: what is checked and put together before anything runs, with ip/ip.go
-- and rpi/firmware.go. The file system and the network's addresses are parameters.
pub mod Firmware
pub mod Laws
pub mod Labels
pub mod ClearState
pub mod Start
pub mod Components
mod Tests
use omni_infra_provider_bare.Base.{
  Bool, Bytes, List, Option, String, [], false, if◌then◌else◌, is_some, leb, none, not, some,
  split_on, str_eq, true, ◌&&◌, ◌||◌, ◌∷◌,
}
use omni_infra_provider_bare.Base.Dict.{insert, lookup}
use omni_infra_provider_bare.Effects.{Done, PxeMode, Result, err, ok, uefi}
use omni_infra_provider_bare.Ipxe.Files.{Files}
use omni_infra_provider_bare.Provider.Firmware.{Directory, LoadError, load}

-- type Options, the fields that are read here
pub record Options : Type 0 where
  pub secure_boot_enabled : Bool
  pub use_local_boot_assets : Bool
  pub agent_test_mode : Bool
  pub api_power_mgmt_state_dir : String
  pub api_advertise_address : String
  pub machine_labels : List String
  pub rpi_firmware_path : String

pub data StartError : Type 0 where
  secure_boot_without_uefi secure_boot_with_local_assets test_mode_without_state_dir : StartError
  state_dir_unreadable state_dir_not_a_directory : String → StartError
  no_addresses : String → StartError
  not_one_routable : List String → StartError
  firmware : LoadError → StartError
  collision : String → StartError
  malformed_label : String → StartError

abbrev is_uefi : PxeMode → Bool
is_uefi uefi = true
is_uefi _ = false

-- os.Stat: whether the path is a directory, or the error.
abbrev pub Stat : Type 0
Stat = String → Result String Bool

abbrev pub check_state_dir : Stat → String → Result StartError Done
check_state_dir stat dir = elim (stat dir) [
  | err text ↦ err (state_dir_unreadable text)
  | ok is_dir ↦ if is_dir then ok tt else err (state_dir_not_a_directory dir)
]

unfoldable pub validate_options : Stat → Options → PxeMode → Result StartError Done
validate_options stat o mode =
    if o.secure_boot_enabled && not (is_uefi mode)
    then err secure_boot_without_uefi
    else if o.secure_boot_enabled && o.use_local_boot_assets
    then err secure_boot_with_local_assets
    else if o.agent_test_mode && str_eq o.api_power_mgmt_state_dir ""
    then err test_mode_without_state_dir
    else if not (str_eq o.api_power_mgmt_state_dir "")
    then check_state_dir stat o.api_power_mgmt_state_dir
    else ok tt

-- The methods of net.IP, on its bytes.
pub record IpMethods : Type 0 where
  pub is_loopback : Bytes → Bool
  pub is_link_local_unicast : Bytes → Bool
  pub is_link_local_multicast : Bytes → Bool
  pub is_multicast : Bytes → Bool
  pub is_unspecified : Bytes → Bool
  pub to4 : Bytes → Option Bytes
  pub to_string : Bytes → String

-- What net.InterfaceAddrs lists: an *net.IPNet with its bytes, or an address of another type.
pub data Address : Type 0 where
  ip_net : Bytes → Address
  other_address : Address

-- `ip[0] >= 240`; an address with an IPv4 form has four or sixteen bytes.
abbrev is_reserved_ipv4 : Bytes → Bool
is_reserved_ipv4 [] = false
is_reserved_ipv4 (b ∷ _) = leb 240 b

module _ (net : IpMethods) where
  unfoldable pub is_routable_ip : Bytes → Bool
  is_routable_ip ip =
      if net.is_loopback ip
        || net.is_link_local_unicast ip
        || net.is_link_local_multicast ip
        || net.is_multicast ip
        || net.is_unspecified ip
      then false
      else if is_some (net.to4 ip)
      then not (is_reserved_ipv4 ip)
      else true

  unfoldable pub routable_ips : List Address → List String
  unfolding is_routable_ip
  routable_ips [] = []
  routable_ips (other_address ∷ rest) = routable_ips rest
  routable_ips (ip_net ip ∷ rest) =
      let ips = routable_ips rest in if is_routable_ip ip then net.to_string ip ∷ ips else ips

  unfoldable pub determine_api_advertise_address :
      Options → Result String (List Address) → Result StartError String
  unfolding routable_ips
  determine_api_advertise_address o addresses =
      if not (str_eq o.api_advertise_address "")
      then ok o.api_advertise_address
      else elim addresses [
        | err text ↦ err (no_addresses text)
        | ok list ↦ elim (routable_ips list) [ ip ∷ [] ↦ ok ip | ips ↦ err (not_one_routable ips) ]
      ]

-- The loop over the firmware; a Go map's order is any, and decides only which collision is named.
unfoldable pub merge : Files → Files → Result StartError Files
merge [] files = ok files
merge ((name, contents) ∷ rest) files =
    let merged = merge rest (insert name contents files) in
    elim (lookup name files) [ some _ ↦ err (collision name) | none ↦ merged ]

unfoldable pub boot_files : Directory → Options → Files → Result StartError Files
unfolding merge load
boot_files dir o ipxe_files =
    if str_eq o.rpi_firmware_path ""
    then ok ipxe_files
    else elim (load dir) [ err e ↦ err (firmware e) | ok loaded ↦ merge loaded ipxe_files ]

-- A label's parts: its key, and its value, if any. strings.Split gives one part at least.
unfoldable pub parse_label : String → Result StartError (String × String)
parse_label l = elim (split_on b'=' l) [
  | [] ↦ err (malformed_label l)
  | key ∷ [] ↦ ok (key, "")
  | key ∷ value ∷ [] ↦ ok (key, value)
  | key ∷ value ∷ _ ∷ _ ↦ err (malformed_label l)
]

unfoldable pub parse_into :
    List String → List (String × String) → Result StartError (List (String × String))
unfolding parse_label
parse_into [] labels = ok labels
parse_into (l ∷ rest) labels = elim (parse_label l) [
  | err e ↦ err e
  | ok (key, value) ↦ parse_into rest (insert key value labels)
]

unfoldable pub parse_labels : Options → Result StartError (List (String × String))
unfolding parse_into
parse_labels o = parse_into o.machine_labels []
