-- ===== src/Base/Split.antt =====
-- strings.Split by one character, which a text is given by its number.
use Prim.Native.Nat.{ℕ}
use Prim.Native.Char.{Char, code}
use Prim.Native.String.{String}
use Prim.Native.String.{◌++◌ as ◌<>◌}
use mathlib.Core.Path.{◌≡◌, refl}
use mathlib.Core.Logic.{inl, inr}
use mathlib.Core.Bool.{Bool, true, false, not, ◌&&◌}
use mathlib.Core.List.{List, [], ◌∷◌}
use native.Mathlib.Omega.{arith}
use text.Mathlib.TextLemmas.{nil-append, cons-append}
use omni_infra_provider_bare.Base.Tests.{Bool-cases, if◌then◌else◌, ◌==◌}
use omni_infra_provider_bare.Base.Lists.{All}

abbrev prepend : Char → List String → List String
prepend c [] = String.◌∷◌ c "" ∷ []
prepend c (s ∷ rest) = String.◌∷◌ c s ∷ rest

unfoldable pub split_on : ℕ → String → List String
split_on d String.[] = "" ∷ []
split_on d (String.◌∷◌ c s) =
    let rest = split_on d s in if code c == d then "" ∷ rest else prepend c rest

abbrev pub lacks : ℕ → String → Bool
lacks d String.[] = true
lacks d (String.◌∷◌ c s) = not (code c == d) && lacks d s

abbrev pub Lacks : ℕ → String → Type 0
Lacks d s = lacks d s ≡ true

module _ (d : ℕ) where
  prepend-Lacks :
      (c : Char) (ss : List String)
      → (code c == d) ≡ false
      → All (Lacks d) ss
      → All (Lacks d) (prepend c ss)
  prepend-Lacks c [] n h = (ground arith, tt)
  prepend-Lacks c (s ∷ ss) n h = (ground (arith, h.0), h.1)

  -- The parts are without the separator.
  pub split_on-Lacks : (s : String) → All (Lacks d) (split_on d s)
  unfolding split_on
  split_on-Lacks String.[] = (refl, tt)
  split_on-Lacks (String.◌∷◌ c s) = elim (Bool-cases (code c == d)) [
    | inl h ↦ rw h (refl, split_on-Lacks s)
    | inr h ↦ rw h (prepend-Lacks c (split_on d s) h (split_on-Lacks s))
  ]

  first_differs : (c : Char) (p : String) → Lacks d (String.◌∷◌ c p) → (code c == d) ≡ false
  first_differs c p h = ground arith

  rest_Lacks : (c : Char) (p : String) → Lacks d (String.◌∷◌ c p) → Lacks d p
  rest_Lacks c p h = ground arith

  -- A text without the separator is its only part.
  pub split_on_whole : (p : String) → Lacks d p → split_on d p ≡ p ∷ []
  unfolding split_on
  split_on_whole String.[] h = refl
  split_on_whole (String.◌∷◌ c p) h =
      rw (first_differs c p h) (rw (split_on_whole p (rest_Lacks c p h)) refl)

-- The part before the first separator, and the parts after it.
pub split_on-append :
    (c : Char) (p s : String)
    → Lacks (code c) p
    → split_on (code c) (p <> String.◌∷◌ c "" <> s) ≡ p ∷ split_on (code c) s
unfolding split_on
split_on-append c String.[] s h =
    rw (nil-append (String.◌∷◌ c "" <> s))
      (rw (cons-append c "" s) (rw (nil-append s) (ground arith)))
split_on-append c (String.◌∷◌ a p) s h = rw (cons-append a p (String.◌∷◌ c "" <> s)) (
    rw (first_differs (code c) a p h) (rw (split_on-append c p s (rest_Lacks (code c) a p h)) refl))

pub lacks-append : (c : Char) (p s : String) → lacks (code c) (p <> String.◌∷◌ c "" <> s) ≡ false
lacks-append c String.[] s =
    rw (nil-append (String.◌∷◌ c "" <> s)) (rw (cons-append c "" s) (ground arith))
lacks-append c (String.◌∷◌ a p) s =
    rw (cons-append a p (String.◌∷◌ c "" <> s)) (let smaller = lacks-append c p s in ground arith)
