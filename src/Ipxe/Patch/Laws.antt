-- ===== src/Ipxe/Patch/Laws.antt =====
-- What a patch changes of a binary, and what it keeps.
use omni_infra_provider_bare.Base.{
  Bytes, Option-cases, [], ap, append_assoc, arith, drop, has_prefix-length, index, index-drop, inl,
  inr, length, length-append, length-drop, length-replicate, length-take, refl, replicate, some,
  suc, sym, take, zero, ℕ, ◌++◌, ◌+◌, ◌-◌, ◌<◌, ◌∙◌, ◌∷◌, ◌≡◌, ◌≤◌,
}
use omni_infra_provider_bare.Effects.{ok}
use omni_infra_provider_bare.Ipxe.Patch.{
  hash_size, ipxe_root_ca_hash, newline, padded, patch_script, placeholder_end, placeholder_start,
  replace_ca, replace_from, splice,
}

index-le :
    (xs needle : Bytes) (i : ℕ)
    → index xs needle ≡ some i
    → 0 < length needle
    → i + length needle ≤ length xs
index-le xs needle i h n =
    omega (arith, has_prefix-length needle (drop i xs) (index-drop xs needle i h), length-drop i xs)

length-splice :
    (at : ℕ) (bytes contents : Bytes)
    → at + length bytes ≤ length contents
    → length (splice at bytes contents) ≡ length contents
length-splice at bytes contents fits = omega (
  arith,
  length-append (take at contents) (bytes ++ drop (at + length bytes) contents),
  length-append bytes (drop (at + length bytes) contents),
  length-take at contents,
  length-drop (at + length bytes) contents,
  fits,
)

length-padded :
    (script : Bytes) (space : ℕ) → length script ≤ space → length (padded script space) ≡ space
length-padded script space h = omega (
  arith,
  length-append script (replicate (space - length script) newline),
  length-replicate (space - length script) newline,
  h,
)

-- Where the script goes, for a patch that succeeds.
script_placed :
    (contents script r : Bytes) {start end : ℕ}
    → patch_script contents script ≡ ok r
    → index contents placeholder_start ≡ some start
    → index contents placeholder_end ≡ some end
    → (start ≤ end)
      × (length script ≤ end + 19 - start)
      × (r ≡ splice start (padded script (end + 19 - start)) contents)
unfolding patch_script
script_placed contents script r h a b = ground arith

-- A script that is patched in fills the placeholder and nothing else: the binary keeps its length, the
-- placeholder begins where its start marker stands first and ends after its end marker, and the binary
-- is what was before it, the script, newlines, and what was after it.
pub script_patched :
    (contents script r : Bytes)
    → patch_script contents script ≡ ok r
    → (start : ℕ) × (end : ℕ) × (index contents placeholder_start ≡ some start)
      × (index contents placeholder_end ≡ some end)
      × (r
          ≡ take start contents
            ++ ((script ++ replicate (end + length placeholder_end - start - length script) newline)
                ++ drop (end + length placeholder_end) contents))
      × (length script ≤ end + length placeholder_end - start)
      × (length r ≡ length contents)
unfolding patch_script
script_patched contents script r h = elim (Option-cases (index contents placeholder_start)) [
  | inl a ↦ absurd (ground arith)
  | inr (start, a) ↦ elim (Option-cases (index contents placeholder_end)) [
    | inl b ↦ absurd (ground arith)
    | inr (end, b) ↦ placed start end a b (script_placed contents script r h a b)
  ]
]
  where
    placed :
        (start end : ℕ) (a : index contents placeholder_start ≡ some start)
        (b : index contents placeholder_end ≡ some end)
        → (start ≤ end)
          × (length script ≤ end + 19 - start)
          × (r ≡ splice start (padded script (end + 19 - start)) contents)
        → (start : ℕ) × (end : ℕ) × (index contents placeholder_start ≡ some start)
          × (index contents placeholder_end ≡ some end)
          × (r
              ≡ take start contents
                ++ ((script ++ replicate (end + 19 - start - length script) newline)
                    ++ drop (end + 19) contents))
          × (length script ≤ end + 19 - start)
          × (length r ≡ length contents)
    placed start end a b (le, small, e) =
        let filled : start + length (padded script (end + 19 - start)) ≡ end + 19 =
          omega (arith, length-padded script (end + 19 - start) small, le) in
        (
          start,
          end,
          a,
          b,
          e
              ∙ ap
                  (λ k.
                    take start contents ++ (padded script (end + 19 - start) ++ drop k contents))
                  filled,
          small,
          ap length e
              ∙ length-splice start (padded script (end + 19 - start)) contents
                  (omega (arith, filled, index-le contents placeholder_end end b (omega arith))),
        )

take_kept :
    (n at : ℕ) (xs ys : Bytes) → n ≤ at → at ≤ length xs → take n (take at xs ++ ys) ≡ take n xs
take_kept zero at xs ys h k = refl
take_kept (suc n) zero xs ys h k = absurd (omega (arith, h))
take_kept (suc n) (suc at) [] ys h k = absurd (omega (arith, k))
take_kept (suc n) (suc at) (x ∷ xs) ys h k =
    ap (λ l. x ∷ l) (take_kept n at xs ys (omega (arith, h)) (omega (arith, k)))

take-take : (n k : ℕ) (xs : Bytes) → n ≤ k → take n (take k xs) ≡ take n xs
take-take zero k xs h = refl
take-take (suc n) zero xs h = absurd (omega (arith, h))
take-take (suc n) (suc k) [] h = refl
take-take (suc n) (suc k) (x ∷ xs) h = ap (λ l. x ∷ l) (take-take n k xs (omega (arith, h)))

take_front : (xs ys : Bytes) (n : ℕ) → n ≡ length xs → take n (xs ++ ys) ≡ xs
take_front [] ys zero h = refl
take_front [] ys (suc n) h = absurd (omega (arith, h))
take_front (x ∷ xs) ys zero h = absurd (omega (arith, h))
take_front (x ∷ xs) ys (suc n) h = ap (λ l. x ∷ l) (take_front xs ys n (omega (arith, h)))

-- The loop over the authority's hash has enough fuel if that reaches the end of the binary; it keeps
-- the length, and all that is before the offset.
replace_from_ends :
    (fuel : ℕ) (hash : Bytes) (start : ℕ) (contents : Bytes)
    → length hash ≡ hash_size
    → start ≤ length contents
    → length contents < start + fuel
    → (r : Bytes) × (replace_from fuel hash start contents ≡ some r)
      × (length r ≡ length contents)
      × (take start r ≡ take start contents)
unfolding replace_from
replace_from_ends zero hash start contents size le enough = absurd (omega (arith, le, enough))
replace_from_ends (suc fuel) hash start contents size le enough =
    elim (Option-cases (index (drop start contents) ipxe_root_ca_hash)) [
      | inl missing ↦ (contents, ground arith, refl, refl)
      | inr (i, found) ↦
          let room : start + i + 32 ≤ length contents = omega (
            arith,
            index-le (drop start contents) ipxe_root_ca_hash i found (omega arith),
            length-drop start contents,
            le,
          ) in
          let next = splice (start + i) hash contents in
          let same : length next ≡ length contents =
            length-splice (start + i) hash contents (omega (arith, room, size)) in
          let (r, e, l, t) =
            replace_from_ends fuel hash (start + i + length hash) next size
              (omega (arith, room, size, same)) (omega (arith, room, size, same, enough)) in
          (
            r,
            ground arith,
            l ∙ same,
            sym (take-take start (start + i + length hash) r (omega arith))
                ∙ ap (λ l. take start l) t
                ∙ take-take start (start + i + length hash) next (omega arith)
                ∙ take_kept start (start + i) contents
                    (hash ++ drop (start + i + length hash) contents) (omega arith)
                    (omega (arith, room)),
          )
    ]

-- The first turn of the loop.
replace_ca-first :
    (contents hash r : Bytes) (i : ℕ)
    → length hash ≡ hash_size
    → index contents ipxe_root_ca_hash ≡ some i
    → replace_from (length contents) hash (i + length hash) (splice i hash contents) ≡ some r
    → replace_ca contents hash ≡ ok r
unfolding replace_ca replace_from
replace_ca-first contents hash r i size found rest = ground arith

front-splice :
    (at n : ℕ) (bytes contents : Bytes)
    → at ≤ length contents
    → n ≡ at + length bytes
    → take n (splice at bytes contents) ≡ take at contents ++ bytes
front-splice at n bytes contents h e =
    ap (λ l. take n l)
      (sym (append_assoc (take at contents) bytes (drop (at + length bytes) contents)))
    ∙ take_front (take at contents ++ bytes) (drop (at + length bytes) contents) n
        (omega (arith, length-append (take at contents) bytes, length-take at contents, h, e))

-- The authority is replaced: with a hash of 32 bytes and a binary that holds the root hash, replaceCA
-- ends without an error; the binary keeps its length, and up to the end of the first place of the root
-- hash it is what was before that place and then the new hash.
pub ca_replaced :
    (contents hash : Bytes) (i : ℕ)
    → length hash ≡ hash_size
    → index contents ipxe_root_ca_hash ≡ some i
    → (r : Bytes) × (replace_ca contents hash ≡ ok r)
      × (length r ≡ length contents)
      × (take (i + hash_size) r ≡ take i contents ++ hash)
ca_replaced contents hash i size found =
    let room : i + 32 ≤ length contents =
      index-le contents ipxe_root_ca_hash i found (omega arith) in
    let next = splice i hash contents in
    let same : length next ≡ length contents =
      length-splice i hash contents (omega (arith, room, size)) in
    let (r, e, l, t) =
      replace_from_ends (length contents) hash (i + length hash) next size
        (omega (arith, room, size, same)) (omega (arith, room, size, same)) in
    (
      r,
      replace_ca-first contents hash r i size found e,
      l ∙ same,
      ap (λ k. take (i + k) r) (sym size)
          ∙ t
          ∙ front-splice i (i + length hash) hash contents (omega (arith, room)) refl,
    )
