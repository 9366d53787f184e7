-- ===== src/Ipxe/Patch.antt =====
-- internal/provider/ipxe/patch.go: the script and the certificate authority of an iPXE binary.
pub mod Laws
mod Tests
use omni_infra_provider_bare.Base.{
  Bytes, Option, String, [], codes, drop, false, if◌then◌else◌, index, length, ltb, none, replicate,
  some, suc, take, true, zero, ℕ, ◌++◌, ◌+◌, ◌-◌, ◌==◌, ◌∷◌,
}
use omni_infra_provider_bare.Effects.{Result, err, ok}

-- placeholderStart and placeholderEnd
abbrev pub placeholder_start : Bytes
placeholder_start = codes "# *PLACEHOLDER START*"

abbrev pub placeholder_end : Bytes
placeholder_end = codes "# *PLACEHOLDER END*"

-- '\n'
abbrev pub newline : ℕ
newline = 10

-- `copy(contents[at:], bytes)`, where the bytes fit.
abbrev pub splice : ℕ → Bytes → Bytes → Bytes
splice at bytes contents = take at contents ++ (bytes ++ drop (at + length bytes) contents)

-- The script with the newlines that fill the space.
abbrev pub padded : Bytes → ℕ → Bytes
padded script space = script ++ replicate (space - length script) newline

-- patchBytes up to the certificate authority.
unfoldable pub patch_script : Bytes → Bytes → Result String Bytes
patch_script contents script = elim (index contents placeholder_start) [
  | none ↦ err "placeholder start not found"
  | some start ↦ elim (index contents placeholder_end) [
    | none ↦ err "placeholder end not found"
    | some end ↦
        let space = end + length placeholder_end - start in
        elim (ltb end start) [
          | true ↦ err "placeholder end before start"
          | false ↦ elim (ltb space (length script)) [
            | true ↦ err "script size is larger than placeholder space"
            | false ↦ ok (splice start (padded script space) contents)
          ]
        ]
  ]
]

-- ipxeRootCAHash
abbrev pub ipxe_root_ca_hash : Bytes
ipxe_root_ca_hash =
    0x9f ∷ 0xaf ∷ 0x71 ∷ 0x7b ∷ 0x7f ∷ 0x8c ∷ 0xa2 ∷ 0xf9 ∷ 0x3c ∷ 0x25 ∷ 0x6c ∷ 0x79 ∷ 0xf8 ∷ 0xac
    ∷ 0x55 ∷ 0x91 ∷ 0x89 ∷ 0x5d ∷ 0x66 ∷ 0xd1 ∷ 0xff ∷ 0x3b ∷ 0xee ∷ 0x63 ∷ 0x97 ∷ 0xa7 ∷ 0x0d
    ∷ 0x29 ∷ 0xc6 ∷ 0x5e ∷ 0xed ∷ 0x1a ∷ []

-- sha256.Size
abbrev pub hash_size : ℕ
hash_size = 32

-- The loop of replaceCA, from an offset, on fuel; `none` if that runs out.
unfoldable pub replace_from : ℕ → Bytes → ℕ → Bytes → Option Bytes
replace_from zero hash start contents = none
replace_from (suc fuel) hash start contents = elim (index (drop start contents) ipxe_root_ca_hash) [
  | none ↦ some contents
  | some i ↦ replace_from fuel hash (start + i + length hash) (splice (start + i) hash contents)
]

-- replaceCA. A binary without the hash is an error; the fuel is the length of the binary and one.
unfoldable pub replace_ca : Bytes → Bytes → Result String Bytes
replace_ca contents hash =
    if length hash == hash_size
    then elim (index contents ipxe_root_ca_hash) [
      | none ↦ err "iPXE root CA hash was not found in file"
      | some _ ↦ elim (replace_from (suc (length contents)) hash 0 contents) [
        | none ↦ err "out of fuel"
        | some patched ↦ ok patched
      ]
    ]
    else err "CA hash must be 32 bytes"

unfoldable pub patch_bytes : Bytes → Bytes → Bytes → Result String Bytes
patch_bytes contents script hash = elim (patch_script contents script) [
  | err e ↦ err e
  | ok patched ↦ if length hash == 0 then ok patched else replace_ca patched hash
]
