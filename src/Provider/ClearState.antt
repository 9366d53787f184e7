-- ===== src/Provider/ClearState.antt =====
-- clearState of internal/provider/provider.go: all resources of the provider are destroyed. The store of
-- resources is a parameter.
use omni_infra_provider_bare.Base.{
  Bool, List, Option, Option-cases, String, [], arith, if◌then◌else◌, inl, inr, none, not, refl,
  some, ◌++◌, ◌∷◌, ◌≡◌,
}
use omni_infra_provider_bare.Effects.{Done, Result, err, ok}

-- Listing each kind of resource, in order, by id; reading and destroying one, with the error.
pub record ResourceStore : Type 0 where
  pub listings : List (Result String (List String))
  pub getting : String → Option String
  pub destroying : String → Option String

pub data ClearError : Type 0 where
  listing_failed : String → ClearError
  clearing_failed : List String → ClearError

-- The loop over the kinds; the first error ends it.
unfoldable pub to_destroy : List (Result String (List String)) → Result ClearError (List String)
to_destroy [] = ok []
to_destroy (err text ∷ rest) = err (listing_failed text)
to_destroy (ok ids ∷ rest) = elim (to_destroy rest) [ err e ↦ err e | ok more ↦ ok (ids ++ more) ]

module _ (st : ResourceStore) where
  abbrev destroy_one : String → List String × List String
  destroy_one id = elim (st.getting id) [
    | some text ↦ ([], text ∷ [])
    | none ↦ elim (st.destroying id) [ some text ↦ ([], text ∷ []) | none ↦ (id ∷ [], []) ]
  ]

  -- The loop over the resources: those that are destroyed, and the errors, which do not end it.
  unfoldable pub destroy_all : List String → List String × List String
  destroy_all [] = ([], [])
  destroy_all (id ∷ ids) =
      let (gone, errors) = destroy_one id in
      let (more_gone, more_errors) = destroy_all ids in (gone ++ more_gone, errors ++ more_errors)

  abbrev ended : List String × List String → List String × Result ClearError Done
  ended (gone, []) = (gone, ok tt)
  ended (gone, e ∷ es) = (gone, err (clearing_failed (e ∷ es)))

  unfoldable pub clear_state : (is_debug_build : Bool) → List String × Result ClearError Done
  unfolding to_destroy destroy_all
  clear_state is_debug_build =
      if not is_debug_build
      then ([], ok tt)
      else elim (to_destroy st.listings) [ err e ↦ ([], err e) | ok ids ↦ ended (destroy_all ids) ]

  -- Without errors, all the resources are destroyed, in order.
  pub destroy_all_lem : (ids : List String) → (destroy_all ids).1 ≡ [] → (destroy_all ids).0 ≡ ids
  unfolding destroy_all
  destroy_all_lem [] h = refl
  destroy_all_lem (id ∷ ids) h = elim (Option-cases (st.getting id)) [
    | inr (text, g) ↦ absurd (ground (arith, h, g))
    | inl g ↦ elim (Option-cases (st.destroying id)) [
      | inr (text, d) ↦ absurd (ground (arith, h, g, d))
      | inl d ↦
          let smaller = destroy_all_lem ids (ground (arith, h, g, d)) in
          ground (arith, g, d, smaller)
    ]
  ]
