-- ===== src/Provider/Laws.antt =====
-- What is refused at the start, and what is served.
use mathlib.Core.Path.{subst}
use omni_infra_provider_bare.Base.{
  All, Bool, Bool-cases, Bytes, Lacks, List, Option, Option-cases, String, [], any, arith, eq_iff,
  false, inl, inr, is_some, join, lacks, lacks-append, none, not, refl, some, str_eq, sym, true,
  ◌&&◌, ◌<>◌, ◌↔◌, ◌∷◌, ◌≡◌, ◌≢◌, ◌⊎◌,
}
use omni_infra_provider_bare.Base.Dict.{insert, lookup, lookup-insert}
use omni_infra_provider_bare.Effects.{PxeMode, Result-cases, ok, uefi}
use omni_infra_provider_bare.Ipxe.Files.{Files}
use omni_infra_provider_bare.Provider.{Options, Stat, boot_files, merge, validate_options}
use omni_infra_provider_bare.Provider.Firmware.{Directory, Entry, load, required_files}
use omni_infra_provider_bare.Provider.Firmware.Laws.{is_listed, load-lookup, load-required}
use omni_infra_provider_bare.Tftp.{deliver, handle_read}
use omni_infra_provider_bare.Tftp.Laws.{board_served}
use omni_infra_provider_bare.Tftp.Boards.{IsBoardDirectory}
use omni_infra_provider_bare.Tftp.Paths.{IsPlain}

-- The options are accepted exactly if secure boot is off or the boot mode is UEFI and no local boot
-- assets are used, agent test mode is off or there is a state directory of the power management API,
-- and the state directory, if one is given, is a directory that can be read.
pub validate_options_iff :
    (stat : Stat) (o : Options) (mode : PxeMode)
    → (validate_options stat o mode ≡ ok tt) ↔ (
        ((o.secure_boot_enabled ≡ false) ⊎ ((mode ≡ uefi) × (o.use_local_boot_assets ≡ false)))
        × ((o.agent_test_mode ≡ false) ⊎ (o.api_power_mgmt_state_dir ≢ ""))
        × ((o.api_power_mgmt_state_dir ≡ "") ⊎ (stat o.api_power_mgmt_state_dir ≡ ok true)))
unfolding validate_options
validate_options_iff stat o mode = elim (Result-cases (stat o.api_power_mgmt_state_dir)) [
  | inl (is_dir, r) ↦ ground (arith, eq_iff o.api_power_mgmt_state_dir "", r)
  | inr (text, r) ↦ ground (arith, eq_iff o.api_power_mgmt_state_dir "", r)
]

abbrev pub or_else : {A : Type 0} → Option A → Option A → Option A
or_else (some a) other = some a
or_else none other = other

merge-lookup :
    (loaded base files : Files) (n : String)
    → merge loaded base ≡ ok files
    → (lookup n files ≡ or_else (lookup n base) (lookup n loaded))
      × ((lookup n base ≡ none) ⊎ (lookup n loaded ≡ none))
unfolding merge lookup
merge-lookup [] base files n h = elim (Option-cases (lookup n base)) [
  | inl e ↦ ground (arith, e)
  | inr (c, e) ↦ ground (arith, e)
]
merge-lookup ((m, c) ∷ rest) base files n h = elim (Option-cases (lookup m base)) [
  | inr (old, e) ↦ absurd (ground (arith, e, h))
  | inl e ↦
      let smaller = merge-lookup rest (insert m c base) files n (ground (arith, e, h)) in
      let inserted = lookup-insert m n c base in ground (arith, e, smaller, inserted, eq_iff m n)
]

boot_files-ok :
    (dir : Directory) (o : Options) (ipxe files : Files)
    → boot_files dir o ipxe ≡ ok files
    → o.rpi_firmware_path ≢ ""
    → (loaded : Files) × (load dir ≡ ok loaded) × (merge loaded ipxe ≡ ok files)
unfolding boot_files
boot_files-ok dir o ipxe files h path = elim (Result-cases (load dir)) [
  | inl (loaded, l) ↦ (loaded, l, ground (arith, l, h, eq_iff o.rpi_firmware_path ""))
  | inr (e, l) ↦ absurd (ground (arith, l, h, eq_iff o.rpi_firmware_path ""))
]

-- The boot files are the iPXE files as they are, and with a firmware path also the firmware's files,
-- whose names are other ones: a name stands for the iPXE file, or if there is none, for the
-- directory's file.
pub boot_files-lookup :
    (dir : Directory) (o : Options) (ipxe files : Files) (n : String)
    → boot_files dir o ipxe ≡ ok files
    → o.rpi_firmware_path ≢ ""
    → (loaded : Files) × (load dir ≡ ok loaded)
      × ((lookup n ipxe ≡ none) ⊎ (lookup n loaded ≡ none))
      × (lookup n files ≡ or_else (lookup n ipxe) (lookup n loaded))
boot_files-lookup dir o ipxe files n h path =
    let (loaded, l, merged) = boot_files-ok dir o ipxe files h path in
    let (found, apart) = merge-lookup loaded ipxe files n merged in (loaded, l, apart, found)

is_plain : String → Bool
is_plain s = not (str_eq s "") && not (str_eq s ".") && not (str_eq s "..") && lacks b'/' s

is_plain-IsPlain : (s : String) → is_plain s ≡ true → IsPlain s
unfolding is_plain
is_plain-IsPlain s h = ground (arith, eq_iff s "", eq_iff s ".", eq_iff s "..")

All-any :
    (P : String → Type 0) (n : String) (names : List String)
    → All P names
    → any (str_eq n) names ≡ true
    → P n
All-any P n [] h found = absurd (ground arith)
All-any P n (m ∷ ms) h found = elim (Bool-cases (str_eq n m)) [
  | inl same ↦ subst P (sym ((eq_iff n m).0 same)) h.0
  | inr other ↦ All-any P n ms h.1 (ground arith)
]

required-IsPlain : (n : String) → any (str_eq n) required_files ≡ true → IsPlain n
unfolding is_plain
required-IsPlain n h =
    is_plain-IsPlain n
      (All-any (λ m. is_plain m ≡ true) n required_files (refl, (refl, (refl, tt))) h)

listed-Lacks :
    (n : String) (entries : List Entry)
    → All (λ (e : Entry). Lacks b'/' e.name) entries
    → is_listed n entries ≡ true
    → Lacks b'/' n
listed-Lacks n [] h listed = absurd (ground arith)
listed-Lacks n (e ∷ es) h listed = elim (Bool-cases (str_eq e.name n)) [
  | inl same ↦ subst (Lacks b'/') ((eq_iff e.name n).0 same) h.0
  | inr other ↦ listed-Lacks n es h.1 (ground arith)
]

-- A path with a slash is none of the firmware's files.
load-no_path :
    (dir : Directory) (loaded : Files) (d n : String) (entries : List Entry)
    → load dir ≡ ok loaded
    → dir.entries ≡ ok entries
    → All (λ (e : Entry). Lacks b'/' e.name) entries
    → lookup (d <> "/" <> n) loaded ≡ none
load-no_path dir loaded d n entries l listing names =
    elim (Option-cases (lookup (d <> "/" <> n) loaded)) [
      | inl e ↦ e
      | inr (c, e) ↦
          let (entries', same, listed, _) = load-lookup dir loaded (d <> "/" <> n) c l e in
          let listed' : is_listed (d <> "/" <> n) entries ≡ true =
            ground (arith, same, listing, listed) in
          absurd (
            ground
              (arith, listed-Lacks (d <> "/" <> n) entries names listed', lacks-append "/" d n))
    ]

-- A Raspberry Pi gets what it needs: with the boot files that a firmware path gives, a request of a
-- required file's name under any board directory is answered as sending the contents ends that
-- reading the file of that name gave. That no entry's name has a slash is what a directory is, and
-- no iPXE file may be named as the whole request.
pub required_served :
    (dir : Directory) (o : Options) (ipxe files : Files) (entries : List Entry)
    (send : Bytes → Option String) (d n : String)
    → boot_files dir o ipxe ≡ ok files
    → o.rpi_firmware_path ≢ ""
    → dir.entries ≡ ok entries
    → All (λ (e : Entry). Lacks b'/' e.name) entries
    → IsBoardDirectory d
    → any (str_eq n) required_files ≡ true
    → lookup (d <> "/" <> n) ipxe ≡ none
    → (c : Bytes) × (dir.read_file n ≡ ok c)
      × (handle_read send files (d <> "/" <> n) ≡ deliver send c)
unfolding join
required_served dir o ipxe files entries send d n h path listing names board required absent =
    let (loaded, l, merged) = boot_files-ok dir o ipxe files h path in
    let (found, apart) = merge-lookup loaded ipxe files n merged in
    let (whole, _) = merge-lookup loaded ipxe files (d <> "/" <> n) merged in
    let present =
      All-any (λ m. is_some (lookup m loaded) ≡ true) n required_files (load-required dir loaded l)
        required in
    elim (Option-cases (lookup n loaded)) [
      | inl none_loaded ↦ absurd (ground (arith, none_loaded, present))
      | inr (c, e) ↦
          let (_, _, _, read) = load-lookup dir loaded n c l e in
          (
            c,
            read,
            board_served send files d n [] c board (required-IsPlain n required, tt)
                (ground (arith, whole, absent, load-no_path dir loaded d n entries l listing names))
                (ground (arith, found, apart, e)),
          )
    ]
