-- ===== src/Provider/Start/Tests.antt =====
-- A board, and a machine that boots over HTTP, at a concrete start.
use Prim.Native.Char.{code}
use text.Mathlib.TextLemmas.{nil-append, cons-append}
use omni_infra_provider_bare.Base.{
  Bytes, Option, String, [], ap, arith, contains, if◌then◌else◌, index, inl, none, refl, some,
  split_on, to_lower, true, ◌<>◌, ◌==◌, ◌∷◌, ◌≡◌, ◌⊎◌,
}
use omni_infra_provider_bare.Base.Dict.{insert, lookup}
use omni_infra_provider_bare.Provider.Start.{
  check_start, connect_omni, make_certs, new_handler, run, share,
}
use omni_infra_provider_bare.Provider.Start.Laws.{answered_board_served}
use omni_infra_provider_bare.Provider.{
  boot_files, determine_api_advertise_address, merge, parse_into, parse_label, parse_labels,
  validate_options,
}
use omni_infra_provider_bare.Provider.Firmware.{load, load_entries, load_entry, missing_of}
use omni_infra_provider_bare.Ipxe.Files.{add_undionly, patch_all, patch_binaries, patch_efi}
use omni_infra_provider_bare.Ipxe.Embedded.{build_init_script, custom_ca_hash}
use omni_infra_provider_bare.Ipxe.Patch.{patch_bytes, patch_script}
use omni_infra_provider_bare.Ipxe.Setup.{
  agent_extra_args, config_arg, default_args, kernel_args, provider_address,
}
use omni_infra_provider_bare.Ipxe.{parse_boot_from_disk_method}
use omni_infra_provider_bare.MachineConfig.{build, parse_additional_documents}
use omni_infra_provider_bare.Bmc.Backends.{parse_boot_mode}
use omni_infra_provider_bare.Tftp.{deliver, handle_read}
use omni_infra_provider_bare.Tftp.Boards.{IsBoardDirectory, fits}
use omni_infra_provider_bare.Dhcp.Packet.{
  Packet, arm_http, discover, efi_arm64_http, guid_ok, intel_x86pc, is_boot_dhcp, is_raspberry_pi,
  rpi, scan_arches, validate_dhcp,
}
use omni_infra_provider_bare.Dhcp.Offer.{Response, ServerIp, base_response, offer_dhcp, url_host}
use omni_infra_provider_bare.Dhcp.Handle.{ProxyState, handle_packet}
use omni_infra_provider_bare.Effects.{ok}
use omni_infra_provider_bare.Server.{Mux, Route, file, serve_path, tftp_route}
use omni_infra_provider_bare.Server.Laws.{ServesSubtrees}
use omni_infra_provider_bare.Provider.Start.Fetch.{offered_is_fetched}
use omni_infra_provider_bare.Provider.Start.Samples.{entries, here, options, started}

abbrev board : Packet
board = record {
  message_type = discover;
  has_client_arch = true;
  client_arch = intel_x86pc ∷ [];
  hw_addr = 0xb8 ∷ 0x27 ∷ 0xeb ∷ 1 ∷ 2 ∷ 3 ∷ [];
  user_class = [];
  machine_identifier = [];
  class_identifier = none;
}

abbrev home : ServerIp
home = record { text = "10.0.0.1"; to4 = some (10 ∷ 0 ∷ 0 ∷ 1 ∷ []); host_port = "10.0.0.1:50042" }

abbrev fresh : ProxyState
fresh = record { warned = []; warnings = 0 }

abbrev response_or : Option Response → Response
response_or (some r) = r
response_or none = base_response board home 67

abbrev given : Response
given = response_or (offer_dhcp board home rpi 67)

abbrev sending : Bytes → Option String
sending contents = none

abbrev board_dir : String
board_dir = "1a2b3c4d"

is_board : IsBoardDirectory board_dir
unfolding IsBoardDirectory fits
is_board = inl refl

abbrev needed : String
needed = "start4.elf"

abbrev strip : String → String → Option String
strip String.[] path = some path
strip (String.◌∷◌ c prefix) String.[] = none
strip (String.◌∷◌ c prefix) (String.◌∷◌ d path) =
    let rest = strip prefix path in if code c == code d then rest else none

strip-append : (prefix path : String) → strip prefix (prefix <> path) ≡ some path
strip-append String.[] path = rw (nil-append path) refl
strip-append (String.◌∷◌ c prefix) path =
    rw (cons-append c prefix path) (ground (arith, strip-append prefix path))

abbrev tftp_or_none : Option String → Option Route
tftp_or_none (some rest) = some tftp_route
tftp_or_none none = none

abbrev mux : Mux
mux = record { handler_for = λ list path. tftp_or_none (strip "/tftp/" path); strip_prefix = strip }

tree : ServesSubtrees mux
tree = record {
  handled = λ assets_dir rest clean. ap tftp_or_none (strip-append "/tftp/" rest);
  stripped = λ rest. strip-append "/tftp/" rest;
}

abbrev arm : Packet
arm = record board { client_arch = efi_arm64_http ∷ [] }

abbrev offered : Response
offered = response_or (offer_dhcp arm home arm_http 67)

runs : (run here options none ≡ (ok started, none)) × (started.serve_raspberry_pi ≡ true)
unfolding run check_start connect_omni make_certs share new_handler parse_boot_mode validate_options
    determine_api_advertise_address build parse_additional_documents parse_boot_from_disk_method
    patch_binaries patch_all patch_efi add_undionly patch_bytes patch_script index insert lookup
    kernel_args default_args config_arg agent_extra_args provider_address parse_labels parse_into
    parse_label split_on boot_files merge load load_entries load_entry missing_of to_lower contains
    custom_ca_hash build_init_script
runs = (refl, refl)

answered : handle_packet started.serve_raspberry_pi home 67 board fresh ≡ (some given, fresh)
unfolding handle_packet is_boot_dhcp validate_dhcp scan_arches guid_ok is_raspberry_pi offer_dhcp
answered = rw (runs.1) refl

answered_board_served_example :
    (c : Bytes) × (here.firmware_dir.read_file needed ≡ ok c)
    × (handle_read sending started.files (board_dir <> "/" <> needed) ≡ deliver sending c)
unfolding handle_packet is_boot_dhcp validate_dhcp scan_arches guid_ok is_raspberry_pi offer_dhcp
answered_board_served_example =
    answered_board_served here options none none started entries sending home 67 board fresh fresh
      given board_dir needed runs.0 refl (refl, (refl, (refl, tt))) refl answered is_board refl

offered_is_fetched_example :
    (name : String) × (c : Bytes) × ((offered.boot_file_option ≡ some name)
      ⊎ (offered.boot_file_option ≡ some ("tftp://" <> url_host home <> "/" <> name))
      ⊎ (offered.boot_file_option ≡ some ("http://" <> home.host_port <> "/tftp/" <> name)))
    × (handle_read sending started.files name ≡ deliver sending c)
    × (serve_path mux "" started.files ("/tftp/" <> name) ≡ file c)
unfolding handle_packet is_boot_dhcp validate_dhcp scan_arches guid_ok is_raspberry_pi offer_dhcp
offered_is_fetched_example =
    offered_is_fetched here options mux "" none none started sending home 67 arm fresh fresh offered
      arm_http tree runs.0 refl (λ e. ground (arith, e)) refl
