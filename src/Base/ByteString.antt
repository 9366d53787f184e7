-- ===== src/Base/ByteString.antt =====
-- Byte strings as lists of numbers: strings.HasPrefix, bytes.Index, and the code points of a text.
use Prim.Native.Nat.{ℕ, zero, suc, ◌+◌, ◌≤◌}
use Prim.Native.Char.{code}
use Prim.Native.String.{String}
use mathlib.Core.Path.{◌≡◌, refl}
use mathlib.Core.Bool.{Bool, true, false, ◌&&◌}
use mathlib.Core.Logic.{◌⊎◌, inl, inr}
use mathlib.Core.Option
use mathlib.Core.Option.{Option, none, some}
use mathlib.Core.List.{List, [], ◌∷◌, ◌++◌}
use native.Mathlib.Omega.{arith}
use omni_infra_provider_bare.Base.Tests.{Bool-cases, if◌then◌else◌, is_some, leb, ◌==◌}
use omni_infra_provider_bare.Base.Lists.{drop, length, take}

abbrev pub Bytes : Type 0
Bytes = List ℕ

abbrev pub codes : String → List ℕ
codes String.[] = []
codes (String.◌∷◌ c s) = code c ∷ codes s

-- bytes.HasPrefix, with the prefix first.
abbrev pub has_prefix : Bytes → Bytes → Bool
has_prefix [] xs = true
has_prefix (p ∷ ps) [] = false
has_prefix (p ∷ ps) (x ∷ xs) = p == x && has_prefix ps xs

-- bytes.Index, with `none` for -1: where the needle first begins.
unfoldable pub index : Bytes → Bytes → Option ℕ
index [] needle = if has_prefix needle [] then some 0 else none
index (x ∷ xs) needle =
    let later = Option.map suc (index xs needle) in
    if has_prefix needle (x ∷ xs) then some 0 else later

-- strings.Contains
unfoldable pub contains : Bytes → Bytes → Bool
unfolding index
contains xs needle = is_some (index xs needle)

-- strings.ToLower on one code point. Of the letters beyond ASCII, U+0130 is the only one whose lower
-- case is a letter of the words that are looked for.
abbrev pub lower : ℕ → ℕ
lower c = if leb b'A' c && leb c b'Z' then c + 32 else if c == 0x130 then 0x69 else c

unfoldable pub to_lower : List ℕ → List ℕ
to_lower [] = []
to_lower (c ∷ cs) = lower c ∷ to_lower cs

pub has_prefix_self : (xs ys : Bytes) → has_prefix xs (xs ++ ys) ≡ true
has_prefix_self [] ys = refl
has_prefix_self (x ∷ xs) ys = ground (arith, has_prefix_self xs ys)

-- A prefix is what the list begins with.
pub has_prefix-take : (ps xs : Bytes) → has_prefix ps xs ≡ true → take (length ps) xs ≡ ps
has_prefix-take [] xs h = refl
has_prefix-take (p ∷ ps) [] h = ground arith
has_prefix-take (p ∷ ps) (x ∷ xs) h = ground (arith, has_prefix-take ps xs)

pub has_prefix-length : (ps xs : Bytes) → has_prefix ps xs ≡ true → length ps ≤ length xs
has_prefix-length [] xs h = omega arith
has_prefix-length (p ∷ ps) [] h = ground arith
has_prefix-length (p ∷ ps) (x ∷ xs) h = ground (arith, has_prefix-length ps xs)

index_found :
    (x : ℕ) (xs needle : Bytes) (i : ℕ)
    → index (x ∷ xs) needle ≡ some i
    → ((i ≡ 0) × (has_prefix needle (x ∷ xs) ≡ true))
      ⊎ ((j : ℕ) × (i ≡ suc j) × (index xs needle ≡ some j))
unfolding index
index_found x xs needle i h = elim (Bool-cases (has_prefix needle (x ∷ xs))) [
  | inl here ↦ inl (ground arith, here)
  | inr there ↦ inr (later there (index xs needle) refl)
]
  where
    later :
        has_prefix needle (x ∷ xs) ≡ false
        → (o : Option ℕ) → index xs needle ≡ o
        → (j : ℕ) × (i ≡ suc j) × (index xs needle ≡ some j)
    later there none e = absurd (ground arith)
    later there (some j) e = (j, ground arith, e)

-- What is found stands there.
pub index-drop :
    (xs needle : Bytes) (i : ℕ) → index xs needle ≡ some i → has_prefix needle (drop i xs) ≡ true
unfolding index
index-drop [] [] zero h = refl
index-drop [] [] (suc i) h = ground arith
index-drop [] (n ∷ ns) i h = ground arith
index-drop (x ∷ xs) needle i h = elim (index_found x xs needle i h) [
  | inl (z, here) ↦ rw z here
  | inr (j, z, later) ↦ rw z (index-drop xs needle j later)
]
