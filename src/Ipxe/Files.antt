-- ===== src/Ipxe/Files.antt =====
-- internal/provider/ipxe/patch.go: the boot files, patched and named (patchBinaries). The embedded files
-- and the compression are parameters.
pub mod Laws
use omni_infra_provider_bare.Base.{Bytes, List, String, [], if◌then◌else◌, length, ◌<>◌, ◌==◌, ◌∷◌}
use omni_infra_provider_bare.Base.Dict.{insert}
use omni_infra_provider_bare.Effects.{Result, err, ok}
use omni_infra_provider_bare.Ipxe.Patch.{patch_bytes}

abbrev pub Files : Type 0
Files = List (String × Bytes)

-- dataFS.ReadFile, and zbin.Compress of a binary with its directives.
pub record Sources : Type 0 where
  pub read_file : String → Result String Bytes
  pub compress : Bytes → Bytes → Result String Bytes

-- `if err != nil { return nil, err }`
abbrev pub and_then : {A B : Type 0} → Result String A → (A → Result String B) → Result String B
and_then (ok a) k = k a
and_then (err e) k = err e

-- What the two loops go over, in order: the name of the architecture, its suffix, and the file.
abbrev pub Row : Type 0
Row = String × String × String

abbrev pub rows : List Row
rows =
    ("amd64", "", "ipxe")
    ∷ ("amd64", "", "snp")
    ∷ ("arm64", "-arm64", "ipxe")
    ∷ ("arm64", "-arm64", "snp")
    ∷ []

-- The two names of a file.
abbrev pub flat_name : Row → String
flat_name (arch, suffix, name) = name <> suffix <> ".efi"

abbrev pub arch_path : Row → String
arch_path (arch, suffix, name) = arch <> "/" <> name <> ".efi"

module _ (sources : Sources) (script hash : Bytes) where
  unfoldable pub patch_efi : Row → Files → Result String Files
  patch_efi row files = and_then (sources.read_file ("data/" <> arch_path row)) λ contents.
      and_then (patch_bytes contents script hash)
        λ patched. ok (insert (arch_path row) patched (insert (flat_name row) patched files))

  unfoldable pub patch_all : List Row → Files → Result String Files
  patch_all [] files = ok files
  patch_all (row ∷ rest) files = and_then (patch_efi row files) λ files'. patch_all rest files'

  -- The BIOS binary, which is compressed again.
  unfoldable pub add_undionly : Files → Result String Files
  add_undionly files = and_then (sources.read_file "data/amd64/kpxe/undionly.kpxe.bin") λ bin.
      and_then (sources.read_file "data/amd64/kpxe/undionly.kpxe.zinfo") λ zinfo.
        and_then (patch_bytes bin script hash) λ patched.
          and_then (sources.compress patched zinfo) λ compressed.
            if length compressed == 0
            then err "compressing undionly.kpxe produced an empty file"
            else ok (insert "undionly.kpxe.0" compressed (insert "undionly.kpxe" compressed files))

  unfoldable pub patch_binaries : Result String Files
  patch_binaries = and_then (patch_all rows []) add_undionly
