-- ===== src/Base/Dict.antt =====
-- A Go map with text keys, as an association list. The program never reads an order from one.
use Prim.Native.String.{String}
use mathlib.Core.Path.{◌≡◌, refl}
use mathlib.Core.Option.{Option, none, some}
use mathlib.Core.List.{List, [], ◌∷◌}
use native.Mathlib.Omega.{arith}
use text.Mathlib.Text.{◌==◌ as str_eq}
use text.Mathlib.TextEquality.{eq_iff}
use omni_infra_provider_bare.Base.Tests.{if◌then◌else◌}

module _ {ℓ} {V : Type ℓ} where
  unfoldable pub lookup : String → List (String × V) → Option V
  lookup key [] = none
  lookup key ((name, value) ∷ rest) = if str_eq name key then some value else lookup key rest

  -- The new value takes the old one's place, or the last.
  unfoldable pub insert : String → V → List (String × V) → List (String × V)
  insert key new [] = (key, new) ∷ []
  insert key new ((name, value) ∷ rest) =
      if str_eq name key then (key, new) ∷ rest else (name, value) ∷ insert key new rest

  -- All entries of the key go; a Go map has at most one.
  unfoldable pub erase : String → List (String × V) → List (String × V)
  erase key [] = []
  erase key ((name, value) ∷ entries) =
      let rest = erase key entries in if str_eq name key then rest else (name, value) ∷ rest

  -- A key has its new value, and every other key the value it had.
  pub lookup-insert :
      (key other : String) (new : V) (dict : List (String × V))
      → lookup other (insert key new dict)
        ≡ (if str_eq key other then some new else lookup other dict)
  unfolding insert lookup
  lookup-insert key other new [] = refl
  lookup-insert key other new ((name, value) ∷ rest) =
      let smaller = lookup-insert key other new rest in
      ground (eq_iff name other, eq_iff name key, eq_iff key other, smaller, arith)

  -- A key has no value, and every other key the value it had.
  pub lookup-erase :
      (key other : String) (dict : List (String × V))
      → lookup other (erase key dict) ≡ (if str_eq key other then none else lookup other dict)
  unfolding erase lookup
  lookup-erase key other [] = ground arith
  lookup-erase key other ((name, value) ∷ rest) =
      let smaller = lookup-erase key other rest in
      ground (eq_iff name other, eq_iff name key, eq_iff key other, smaller, arith)
