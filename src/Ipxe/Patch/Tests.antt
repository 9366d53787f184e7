-- ===== src/Ipxe/Patch/Tests.antt =====
-- A small binary, patched.
use omni_infra_provider_bare.Base.{
  Bytes, codes, index, length, refl, replicate, take, ◌++◌, ◌+◌, ◌∷◌, ◌≡◌,
}
use omni_infra_provider_bare.Effects.{ok}
use omni_infra_provider_bare.Ipxe.Patch.{hash_size, ipxe_root_ca_hash, padded, replace_ca, splice}
use omni_infra_provider_bare.Ipxe.Patch.Laws.{ca_replaced}

abbrev binary : Bytes
binary = codes "a# *PLACEHOLDER START*# *PLACEHOLDER END*b"

abbrev script : Bytes
script = codes "x"

abbrev patched : Bytes
patched = splice 1 (padded script 40) binary

abbrev rooted : Bytes
rooted = 7 ∷ ipxe_root_ca_hash

abbrev own_hash : Bytes
own_hash = replicate 32 1

ca_replaced_example :
    (r : Bytes) × (replace_ca rooted own_hash ≡ ok r)
    × (length r ≡ length rooted)
    × (take (1 + hash_size) r ≡ take 1 rooted ++ own_hash)
unfolding index
ca_replaced_example = ca_replaced rooted own_hash 1 refl refl
