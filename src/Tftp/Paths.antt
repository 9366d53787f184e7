-- ===== src/Tftp/Paths.antt =====
-- The name under which a request looks its file up.
use mathlib.Core.List.{reverse, tail, reverse_aux, reverse-reverse}
use omni_infra_provider_bare.Base.{
  All, Bool-cases, Lacks, List, String, [], ap, arith, eq_iff, inl, inr, join, refl, split_on,
  split_on-Lacks, split_on-append, split_on_whole, str_eq, ◌||◌, ◌∙◌, ◌∷◌, ◌≡◌, ◌≢◌,
}
use omni_infra_provider_bare.Tftp.{request_name, step, walk}

-- A part that a clean path keeps: it is not empty, ".", or "..", and has no slash.
abbrev pub IsPlain : String → Type 0
IsPlain s = (s ≢ "") × (s ≢ ".") × (s ≢ "..") × Lacks b'/' s

tail-Plain : (kept : List String) → All IsPlain kept → All IsPlain (tail kept)
tail-Plain [] h = tt
tail-Plain (s ∷ kept) h = h.1

step-Plain :
    (part : String) (kept : List String)
    → Lacks b'/' part
    → All IsPlain kept
    → All IsPlain (step part kept)
unfolding step
step-Plain part kept n h = elim (Bool-cases (str_eq part "" || str_eq part ".")) [
  | inl e ↦ rw e h
  | inr e ↦ rw e (elim (Bool-cases (str_eq part "..")) [
    | inl d ↦ rw d (tail-Plain kept h)
    | inr d ↦ rw d (
      (
        ground (arith, eq_iff part ""),
        ground (arith, eq_iff part "."),
        ground (arith, eq_iff part ".."),
        n,
      ),
      h,
    )
  ])
]

walk-Plain :
    (parts kept : List String)
    → All (Lacks b'/') parts
    → All IsPlain kept
    → All IsPlain (walk parts kept)
unfolding walk
walk-Plain [] kept n h = h
walk-Plain (part ∷ parts) kept n h =
    walk-Plain parts (step part kept) n.1 (step-Plain part kept n.0 h)

reverse_aux-All :
    {A : Type 0} (P : A → Type 0) (xs ys : List A) → All P xs → All P ys → All P (reverse_aux xs ys)
reverse_aux-All P [] ys h k = k
reverse_aux-All P (x ∷ xs) ys h k = reverse_aux-All P xs (x ∷ ys) h.1 (h.0, k)

-- Every request is looked up under a path of plain parts.
pub request_name-Plain :
    (filename : String)
    → (parts : List String) × (request_name filename ≡ join parts "/") × All IsPlain parts
unfolding request_name
request_name-Plain filename = (
  reverse (walk (split_on b'/' filename) []),
  refl,
  reverse_aux-All IsPlain (walk (split_on b'/' filename) []) []
      (walk-Plain (split_on b'/' filename) [] (split_on-Lacks b'/' filename) tt) tt,
)

split_on-join :
    (p : String) (ps : List String)
    → All (Lacks b'/') (p ∷ ps)
    → split_on b'/' (join (p ∷ ps) "/") ≡ p ∷ ps
unfolding join
split_on-join p [] h = split_on_whole b'/' p h.0
split_on-join p (q ∷ qs) h =
    split_on-append "/" p (join (q ∷ qs) "/") h.0 ∙ ap (λ l. p ∷ l) (split_on-join q qs h.1)

step_plain : (p : String) (kept : List String) → IsPlain p → step p kept ≡ p ∷ kept
unfolding step
step_plain p kept h = ground (arith, eq_iff p "", eq_iff p ".", eq_iff p "..")

walk_plain : (ps kept : List String) → All IsPlain ps → walk ps kept ≡ reverse_aux ps kept
unfolding walk
walk_plain [] kept h = refl
walk_plain (p ∷ ps) kept h = rw (step_plain p kept h.0) (walk_plain ps (p ∷ kept) h.1)

All-Lacks : (ps : List String) → All IsPlain ps → All (Lacks b'/') ps
All-Lacks [] h = tt
All-Lacks (p ∷ ps) h = (h.0.3, All-Lacks ps h.1)

-- A path of plain parts is looked up as it is.
pub request_name-join :
    (parts : List String) → All IsPlain parts → request_name (join parts "/") ≡ join parts "/"
unfolding request_name join split_on
request_name-join [] h = refl
request_name-join (p ∷ ps) h =
    rw (split_on-join p ps (All-Lacks (p ∷ ps) h))
      (rw (walk_plain (p ∷ ps) [] h) (ap (λ l. join l "/") (reverse-reverse (p ∷ ps))))

-- The parts of a path that is looked up are those that it was joined from.
pub request_name-idempotent :
    (filename : String) → request_name (request_name filename) ≡ request_name filename
request_name-idempotent filename =
    let (parts, e, plain) = request_name-Plain filename in rw e (request_name-join parts plain)
