-- ===== src/MachineConfig/Laws.antt =====
-- Which extra documents are taken.
use mathlib.Core.Path.{Path}
use omni_infra_provider_bare.Base.{
  All, List, Option-cases, String, [], ap, arith, eq_iff, inl, inr, refl, some, ◌++◌, ◌↔◌, ◌∷◌, ◌≡◌,
  ◌≢◌, ◌⊎◌,
}
use omni_infra_provider_bare.Effects.{Result, err, ok}
use omni_infra_provider_bare.MachineConfig.{
  Document, DocumentError, Kinds, check_document, check_documents, check_name,
  infra_provider_ca_name, judge, kmsg_log_name, parse_additional_documents,
}

-- The document has a name, other than the reserved one.
abbrev pub IsNamedOtherwise : Document → String → Type 0
IsNamedOtherwise d reserved = (name : String) × (d.meta_name ≡ some name) × (name ≢ reserved)

-- A document that does not stand in for one that the provider or Omni adds.
abbrev pub IsAllowed : Kinds → Document → Type 0
IsAllowed kinds d =
    (d.kind ≢ kinds.v1alpha1_version)
    × (d.kind ≢ kinds.siderolink_kind)
    × (d.kind ≢ kinds.event_sink_kind)
    × ((d.kind ≢ kinds.kmsg_log_kind) ⊎ IsNamedOtherwise d kmsg_log_name)
    × ((d.kind ≢ kinds.trusted_roots_config) ⊎ IsNamedOtherwise d infra_provider_ca_name)

module _ (kinds : Kinds) (differ : kinds.kmsg_log_kind ≢ kinds.trusted_roots_config) where
  checked_name :
      (kind reserved : String) (d : Document)
      → (check_name kind reserved d.meta_name ≡ []) ↔ IsNamedOtherwise d reserved
  checked_name kind reserved d = elim (Option-cases d.meta_name) [
    | inl e ↦ (λ h. absurd (ground (arith, h, e)), λ h. absurd (ground (arith, h.1, e)))
    | inr (name, e) ↦ (
      λ h. (name, e, ground (arith, h, e, eq_iff name reserved)),
      λ h. ground (arith, h.1, h.2, e, eq_iff h.0 reserved),
    )
  ]

  check_document-IsAllowed : (d : Document) → (check_document kinds d ≡ []) ↔ IsAllowed kinds d
  unfolding check_document
  check_document-IsAllowed d =
      let of_log = checked_name kinds.kmsg_log_kind kmsg_log_name d in
      let of_roots = checked_name kinds.trusted_roots_config infra_provider_ca_name d in
      ground (
        arith,
        eq_iff d.kind kinds.v1alpha1_version,
        eq_iff d.kind kinds.siderolink_kind,
        eq_iff d.kind kinds.event_sink_kind,
        eq_iff d.kind kinds.kmsg_log_kind,
        eq_iff d.kind kinds.trusted_roots_config,
        differ,
        of_log,
        of_roots,
      )

  append_nil_iff : {A : Type 0} (xs ys : List A) → (xs ++ ys ≡ []) ↔ ((xs ≡ []) × (ys ≡ []))
  append_nil_iff [] ys = (λ h. (refl, h), λ h. h.1)
  append_nil_iff (x ∷ xs) ys = (λ h. absurd (ground (arith, h)), λ h. absurd (ground (arith, h.0)))

  check_documents-IsAllowed :
      (ds : List Document) → (check_documents kinds ds ≡ []) ↔ All (IsAllowed kinds) ds
  unfolding check_documents
  check_documents-IsAllowed [] = (λ _. tt, λ _. refl)
  check_documents-IsAllowed (d ∷ ds) =
      let (one, back) = check_document-IsAllowed d in
      let (all_ds, all_back) = check_documents-IsAllowed ds in
      let (split, joined) = append_nil_iff (check_document kinds d) (check_documents kinds ds) in
      (λ h. (one (split h).0, all_ds (split h).1), λ h. joined (back h.0, all_back h.1))

  -- The extra documents are taken, as they are, exactly if the file is loaded and none of them is one
  -- that the provider or Omni adds: none is a version, a SideroLink or an event sink document, and
  -- those for the kernel log and for trusted roots have names of their own.
  pub parse_additional_documents_iff :
      (loaded : Result String (List Document)) (docs : List Document)
      → (parse_additional_documents kinds loaded ≡ ok docs)
        ↔ ((loaded ≡ ok docs) × All (IsAllowed kinds) docs)
  unfolding parse_additional_documents
  parse_additional_documents_iff (err text) docs =
      (λ h. absurd (ground (arith, h)), λ h. absurd (ground (arith, h.0)))
  parse_additional_documents_iff (ok given) docs = (
    λ h. taken h (check_documents kinds given) refl,
    λ h.
        rw
          (
            parse_additional_documents,
            (check_documents-IsAllowed given).1 (rw (given_same h.0) h.1),
          )
          (ground (arith, h.0)),
  )
    where
      given_same : Path (Result String (List Document)) (ok given) (ok docs) → given ≡ docs
      given_same h = ground (arith, h)

      taken :
          judge (check_documents kinds given) given ≡ ok docs
          → (errors : List DocumentError) → check_documents kinds given ≡ errors
          → (Path (Result String (List Document)) (ok given) (ok docs)) × All (IsAllowed kinds) docs
      taken h [] e =
          let same : given ≡ docs = ground (arith, h, e) in
          (ap ok same, rw⁻¹ same ((check_documents-IsAllowed given).0 e))
      taken h (x ∷ xs) e = absurd (ground (arith, h, e))
