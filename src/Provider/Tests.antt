-- ===== src/Provider/Tests.antt =====
-- The firmware of a Raspberry Pi, and labels.
use mathlib.Core.List.{reverse}
use omni_infra_provider_bare.Base.{
  List, Option, String, [], codes, false, map, none, refl, some, true, ◌∷◌, ◌≡◌,
}
use omni_infra_provider_bare.Base.Dict.{insert, lookup}
use omni_infra_provider_bare.Effects.{ok}
use omni_infra_provider_bare.Ipxe.Files.{Files}
use omni_infra_provider_bare.Provider.{Options, boot_files, merge, parse_labels}
use omni_infra_provider_bare.Provider.Firmware.{
  Directory, Entry, load, load_entries, load_entry, missing_of,
}
use omni_infra_provider_bare.Provider.Labels.{entry_of, parse_labels-print_label}

abbrev entry : String → Entry
entry name = record {
  name = name;
  is_dir = false;
  info = ok (record { is_regular = true; size = 3 });
}

abbrev entries : List Entry
entries =
    entry "config.txt"
    ∷ entry "fixup4.dat"
    ∷ record (entry "overlays") { is_dir = true }
    ∷ entry "start4.elf"
    ∷ []

abbrev sd_card : Directory
sd_card = record { entries = ok entries; read_file = λ name. ok (codes name) }

abbrev options : Options
options = record {
  secure_boot_enabled = false;
  use_local_boot_assets = false;
  agent_test_mode = false;
  api_power_mgmt_state_dir = "";
  api_advertise_address = "";
  machine_labels = "rack" ∷ "zone=b" ∷ [];
  rpi_firmware_path = "/rpi";
}

abbrev ipxe : Files
ipxe = ("snp.efi", 7 ∷ []) ∷ []

abbrev served : Files
served =
    ("snp.efi", 7 ∷ [])
    ∷ ("config.txt", codes "config.txt")
    ∷ ("fixup4.dat", codes "fixup4.dat")
    ∷ ("start4.elf", codes "start4.elf")
    ∷ []

built : boot_files sd_card options ipxe ≡ ok served
unfolding boot_files merge load load_entries load_entry missing_of insert lookup
built = refl

abbrev written : List (String × Option String)
written = ("rack", none) ∷ ("zone", some "b") ∷ []

abbrev zone : String
zone = "zone"

parse_labels-print_label_example :
    (labels : List (String × String)) × (parse_labels options ≡ ok labels)
    × (lookup zone labels ≡ lookup zone (reverse (map entry_of written)))
parse_labels-print_label_example =
    parse_labels-print_label options written zone (refl, ((refl, refl), tt)) refl
