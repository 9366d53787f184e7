-- ===== src/Provider/Start/NoBoard.antt =====
-- No iPXE file has a name below a board directory.
use mathlib.Core.Path.{subst}
use omni_infra_provider_bare.Base.{
  All, Bool-cases, Bytes, List, String, [], ap, arith, eq_iff, inl, inr, none, refl, some, str_eq,
  sym, ◌∷◌, ◌≡◌,
}
use omni_infra_provider_bare.Base.Dict.{insert, lookup}
use omni_infra_provider_bare.Ipxe.Files.Laws.{efi_inserted, undionly_inserted}
use omni_infra_provider_bare.Ipxe.Files.{
  Files, Row, Sources, arch_path, flat_name, patch_all, patch_binaries, patch_efi, rows,
}
use omni_infra_provider_bare.Tftp.{skip, skip_directory, strip_board_directory}
use omni_infra_provider_bare.Effects.{Result-cases, ok}

-- The names of the iPXE files.
pub HasNoBoard : String × Bytes → Type 0
HasNoBoard e = strip_board_directory e.0 ≡ none

insert-HasNoBoard :
    (key : String) (value : Bytes) (files : Files)
    → strip_board_directory key ≡ none
    → All HasNoBoard files
    → All HasNoBoard (insert key value files)
unfolding insert HasNoBoard
insert-HasNoBoard key value [] k h = (k, tt)
insert-HasNoBoard key value ((name, v) ∷ rest) k h = elim (Bool-cases (str_eq name key)) [
  | inl same ↦ rw (insert, same) (k, h.1)
  | inr other ↦ rw (insert, other) (h.0, insert-HasNoBoard key value rest k h.1)
]

pub lookup-HasNoBoard :
    (name rest : String) (files : Files)
    → strip_board_directory name ≡ some rest
    → All HasNoBoard files
    → lookup name files ≡ none
unfolding lookup HasNoBoard
lookup-HasNoBoard name rest [] s h = refl
lookup-HasNoBoard name rest ((key, v) ∷ files) s h = elim (Bool-cases (str_eq key name)) [
  | inl same ↦ absurd (ground (arith, s, h.0, ap strip_board_directory ((eq_iff key name).0 same)))
  | inr other ↦ rw (lookup, other) (lookup-HasNoBoard name rest files s h.1)
]

-- Neither name of a row begins with a board directory.
RowHasNoBoard : Row → Type 0
RowHasNoBoard row =
    (strip_board_directory (flat_name row) ≡ none) × (strip_board_directory (arch_path row) ≡ none)

patch_all-HasNoBoard :
    (sources : Sources) (script hash : Bytes) (todo : List Row) (files files' : Files)
    → All RowHasNoBoard todo
    → All HasNoBoard files
    → patch_all sources script hash todo files ≡ ok files'
    → All HasNoBoard files'
unfolding patch_all RowHasNoBoard
patch_all-HasNoBoard sources script hash [] files files' rs h e =
    subst (All HasNoBoard) (ground (arith, e)) h
patch_all-HasNoBoard sources script hash (row ∷ todo) files files' rs h e =
    elim (Result-cases (patch_efi sources script hash row files)) [
      | inr (text, f) ↦ absurd (ground (arith, e, f))
      | inl (after, f) ↦
          let (b, same) = efi_inserted sources script hash row files after f in
          let (flat, arch) = rs.0 in
          patch_all-HasNoBoard sources script hash todo after files' rs.1
            (subst (All HasNoBoard) (sym same) (
              insert-HasNoBoard (arch_path row) b (insert (flat_name row) b files) arch
                (insert-HasNoBoard (flat_name row) b files flat h)))
            (ground (arith, e, f))
    ]

rows-HasNoBoard : All RowHasNoBoard rows
unfolding RowHasNoBoard strip_board_directory skip_directory skip
rows-HasNoBoard = ((refl, refl), ((refl, refl), ((refl, refl), ((refl, refl), tt))))

undionly-HasNoBoard :
    (strip_board_directory "undionly.kpxe" ≡ none)
    × (strip_board_directory "undionly.kpxe.0" ≡ none)
unfolding strip_board_directory skip_directory skip
undionly-HasNoBoard = (refl, refl)

-- No iPXE file has a name that begins with a board directory.
pub patch_binaries-HasNoBoard :
    (sources : Sources) (script hash : Bytes) (files : Files)
    → patch_binaries sources script hash ≡ ok files
    → All HasNoBoard files
unfolding patch_binaries
patch_binaries-HasNoBoard sources script hash files h =
    elim (Result-cases (patch_all sources script hash rows [])) [
      | inr (text, e) ↦ absurd (ground (arith, h, e))
      | inl (patched, e) ↦
          let (b, same) =
            undionly_inserted sources script hash patched files (ground (arith, h, e)) in
          let (plain, zero_named) = undionly-HasNoBoard in
          subst (All HasNoBoard) (sym same) (
            insert-HasNoBoard "undionly.kpxe.0" b (insert "undionly.kpxe" b patched) zero_named (
              insert-HasNoBoard "undionly.kpxe" b patched plain
                (patch_all-HasNoBoard sources script hash rows [] patched rows-HasNoBoard tt e)))
    ]
