-- ===== src/Provider/Firmware.antt =====
-- internal/provider/rpi/firmware.go: the files that a Raspberry Pi fetches for itself (Load). The
-- directory is a parameter.
pub mod Laws
use omni_infra_provider_bare.Base.{
  Bool, Bytes, List, String, [], if◌then◌else◌, is_some, ltb, not, ℕ, ◌*◌, ◌^◌, ◌∷◌,
}
use omni_infra_provider_bare.Base.Dict.{insert, lookup}
use omni_infra_provider_bare.Effects.{Result, err, ok}
use omni_infra_provider_bare.Ipxe.Files.{Files}

-- What Info says of a file.
pub record FileInfo : Type 0 where
  pub is_regular : Bool
  pub size : ℕ

-- An entry of a directory.
pub record Entry : Type 0 where
  pub name : String
  pub is_dir : Bool
  pub info : Result String FileInfo

-- os.ReadDir of the directory, and os.ReadFile of a name in it.
pub record Directory : Type 0 where
  pub entries : Result String (List Entry)
  pub read_file : String → Result String Bytes

pub data LoadError : Type 0 where
  directory_unreadable : String → LoadError
  stat_failed : (name text : String) → LoadError
  too_large : (name : String) (size : ℕ) → LoadError
  read_failed : (name text : String) → LoadError
  missing_files : List String → LoadError

abbrev pub max_file_size : ℕ
max_file_size = 64 * 2 ^ 20

abbrev pub required_files : List String
required_files = "config.txt" ∷ "start4.elf" ∷ "fixup4.dat" ∷ []

-- One turn of the loop over the entries.
unfoldable pub load_entry : Directory → Entry → Files → Result LoadError Files
load_entry dir entry files = if entry.is_dir then ok files else elim entry.info [
  | err text ↦ err (stat_failed entry.name text)
  | ok info ↦
      if not info.is_regular
      then ok files
      else if ltb max_file_size info.size
      then err (too_large entry.name info.size)
      else elim (dir.read_file entry.name) [
        | err text ↦ err (read_failed entry.name text)
        | ok contents ↦ ok (insert entry.name contents files)
      ]
]

unfoldable pub load_entries : Directory → List Entry → Files → Result LoadError Files
unfolding load_entry
load_entries dir [] files = ok files
load_entries dir (entry ∷ rest) files = elim (load_entry dir entry files) [
  | err e ↦ err e
  | ok files' ↦ load_entries dir rest files'
]

unfoldable pub missing_of : List String → Files → List String
missing_of [] files = []
missing_of (name ∷ rest) files =
    let others = missing_of rest files in
    if is_some (lookup name files) then others else name ∷ others

abbrev pub check_required : Files → Result LoadError Files
check_required files = elim (missing_of required_files files) [
  | [] ↦ ok files
  | name ∷ rest ↦ err (missing_files (name ∷ rest))
]

unfoldable pub load : Directory → Result LoadError Files
unfolding load_entries missing_of
load dir = elim dir.entries [
  | err text ↦ err (directory_unreadable text)
  | ok entries ↦ elim (load_entries dir entries []) [
    | err e ↦ err e
    | ok files ↦ check_required files
  ]
]
