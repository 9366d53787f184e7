-- ===== src/Provider/Firmware/Laws.antt =====
-- What is loaded from the firmware's directory.
use omni_infra_provider_bare.Base.{
  All, Bool, Bool-cases, Bytes, List, String, [], ap, arith, eq_iff, false, if◌then◌else◌, inl, inr,
  is_some, not, refl, some, str_eq, sym, true, ◌&&◌, ◌||◌, ◌∙◌, ◌∷◌, ◌≡◌, ◌⊎◌,
}
use omni_infra_provider_bare.Base.Dict.{insert, lookup, lookup-insert}
use omni_infra_provider_bare.Effects.{Result-cases, ok}
use omni_infra_provider_bare.Ipxe.Files.{Files}
use omni_infra_provider_bare.Provider.Firmware.{
  Directory, Entry, check_required, load, load_entries, load_entry, missing_of, required_files,
}

-- An entry of that name that is no directory.
abbrev pub is_listed : String → List Entry → Bool
is_listed n [] = false
is_listed n (e ∷ es) = (str_eq e.name n && not e.is_dir) || is_listed n es

module _ (dir : Directory) where
  load_entry-ok :
      (entry : Entry) (files files' : Files)
      → load_entry dir entry files ≡ ok files'
      → (files' ≡ files)
        ⊎ ((c : Bytes) × (entry.is_dir ≡ false)
            × (dir.read_file entry.name ≡ ok c)
            × (files' ≡ insert entry.name c files))
  unfolding load_entry
  load_entry-ok entry files files' h = elim (Result-cases (dir.read_file entry.name)) [
    | inl (c, r) ↦ ground (arith, r)
    | inr (e, r) ↦ inl (ground (arith, r))
  ]

  load_entry-lookup :
      (entry : Entry) (files files' : Files) (n : String) (c : Bytes)
      → load_entry dir entry files ≡ ok files'
      → lookup n files' ≡ some c
      → (lookup n files ≡ some c)
        ⊎ ((str_eq entry.name n ≡ true) × (entry.is_dir ≡ false) × (dir.read_file n ≡ ok c))
  load_entry-lookup entry files files' n c h found = elim (load_entry-ok entry files files' h) [
    | inl unchanged ↦ inl (ap (lookup n) (sym unchanged) ∙ found)
    | inr (new, file, read, stored) ↦
        stores new file read
          (sym (lookup-insert entry.name n new files) ∙ ap (lookup n) (sym stored) ∙ found)
  ]
    where
      stores :
          (new : Bytes)
          → entry.is_dir ≡ false
          → dir.read_file entry.name ≡ ok new
          → (if str_eq entry.name n then some new else lookup n files) ≡ some c
          → (lookup n files ≡ some c)
            ⊎ ((str_eq entry.name n ≡ true) × (entry.is_dir ≡ false) × (dir.read_file n ≡ ok c))
      stores new file read l = elim (Bool-cases (str_eq entry.name n)) [
        | inr other ↦ inl (ground (arith, other, l))
        | inl same ↦ inr (
          same,
          file,
          ap dir.read_file (sym ((eq_iff entry.name n).0 same)) ∙ read ∙ ground (arith, same, l),
        )
      ]

  load_entries-lookup :
      (entries : List Entry) (files files' : Files) (n : String) (c : Bytes)
      → load_entries dir entries files ≡ ok files'
      → lookup n files' ≡ some c
      → (lookup n files ≡ some c) ⊎ ((is_listed n entries ≡ true) × (dir.read_file n ≡ ok c))
  unfolding load_entries
  load_entries-lookup [] files files' n c h found = inl (ground (arith, h, found))
  load_entries-lookup (e ∷ es) files files' n c h found =
      elim (Result-cases (load_entry dir e files)) [
        | inr (failure, r) ↦ absurd (ground (arith, r, h))
        | inl (next, r) ↦
            elim (load_entries-lookup es next files' n c (ground (arith, r, h)) found) [
              | inr (listed, read) ↦ inr (ground arith, read)
              | inl before ↦ elim (load_entry-lookup e files next n c r before) [
                | inl earlier ↦ inl earlier
                | inr (name, file, read) ↦ inr (ground arith, read)
              ]
            ]
      ]

missing_of-none :
    (names : List String) (files : Files)
    → missing_of names files ≡ []
    → All (λ n. is_some (lookup n files) ≡ true) names
unfolding missing_of
missing_of-none [] files h = tt
missing_of-none (n ∷ ns) files h = (ground arith, missing_of-none ns files (ground arith))

check_required-ok :
    (loaded files : Files)
    → check_required loaded ≡ ok files
    → (loaded ≡ files) × (missing_of required_files loaded ≡ [])
check_required-ok loaded files h = by_missing (missing_of required_files loaded) refl
  where
    by_missing :
        (names : List String)
        → missing_of required_files loaded ≡ names
        → (loaded ≡ files) × (missing_of required_files loaded ≡ [])
    by_missing [] e = (ground (arith, e, h), e)
    by_missing (n ∷ ns) e = absurd (ground (arith, e, h))

load-ok :
    (dir : Directory) (files : Files)
    → load dir ≡ ok files
    → (entries : List Entry) × (dir.entries ≡ ok entries)
      × (load_entries dir entries [] ≡ ok files)
      × (missing_of required_files files ≡ [])
unfolding load
load-ok dir files h = elim (Result-cases dir.entries) [
  | inr (text, r) ↦ absurd (ground (arith, r, h))
  | inl (entries, r) ↦ elim (Result-cases (load_entries dir entries [])) [
    | inr (e, l) ↦ absurd (ground (arith, r, l, h))
    | inl (loaded, l) ↦
        let (same, none_missing) = check_required-ok loaded files (ground (arith, r, l, h)) in
        (entries, r, l ∙ ap ok same, ap (missing_of required_files) (sym same) ∙ none_missing)
  ]
]

-- Every file that is loaded is one of the directory's entries that are no directories, with the
-- contents that reading it gives.
pub load-lookup :
    (dir : Directory) (files : Files) (n : String) (c : Bytes)
    → load dir ≡ ok files
    → lookup n files ≡ some c
    → (entries : List Entry) × (dir.entries ≡ ok entries)
      × (is_listed n entries ≡ true)
      × (dir.read_file n ≡ ok c)
unfolding lookup
load-lookup dir files n c h found =
    let (entries, r, l, _) = load-ok dir files h in
    elim (load_entries-lookup dir entries [] files n c l found) [
      | inl before ↦ absurd (ground (arith, before))
      | inr (listed, read) ↦ (entries, r, listed, read)
    ]

-- What is loaded has the files that a Raspberry Pi needs.
pub load-required :
    (dir : Directory) (files : Files)
    → load dir ≡ ok files
    → All (λ n. is_some (lookup n files) ≡ true) required_files
load-required dir files h =
    let (_, _, _, none_missing) = load-ok dir files h in
    missing_of-none required_files files none_missing
