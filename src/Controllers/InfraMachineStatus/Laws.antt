-- ===== src/Controllers/InfraMachineStatus/Laws.antt =====
-- The labels and the readiness that Omni is told.
use omni_infra_provider_bare.Base.{
  Bool, List, Option, Option-cases, String, [], arith, eq_iff, false, if◌then◌else◌, inl, inr, none,
  refl, some, starts_with, str_eq, ◌||◌, ◌∷◌, ◌≡◌,
}
use omni_infra_provider_bare.Base.Dict.{insert, lookup, lookup-erase, lookup-insert}
use omni_infra_provider_bare.Resources.{InfraMachineStatus, Labels}
use omni_infra_provider_bare.Controllers.InfraMachineStatus.{
  OmniLabels, clear_labels, copy_label, copy_labels, new_labels, set_labels,
}

abbrev pub is_listed : String → List String → Bool
is_listed j [] = false
is_listed j (k ∷ ks) = str_eq k j || is_listed j ks

abbrev pub or_else : Option String → Option String → Option String
or_else none o = o
or_else (some v) o = some v

-- No key is listed twice, as in a Go map.
abbrev pub NodupKeys : Labels → Type 0
NodupKeys [] = Unit
NodupKeys ((k, _) ∷ m) = (lookup k m ≡ none) × NodupKeys m

lookup-clear_labels :
    (prefix j : String) (m : Labels)
    → lookup j (clear_labels prefix m) ≡ (if starts_with j prefix then lookup j m else none)
unfolding clear_labels lookup
lookup-clear_labels prefix j [] = ground arith
lookup-clear_labels prefix j ((k, v) ∷ m) =
    ground (arith, eq_iff k j, lookup-clear_labels prefix j m)

lookup-set_labels :
    (j : String) (new m : Labels)
    → NodupKeys new
    → lookup j (set_labels new m) ≡ or_else (lookup j new) (lookup j m)
unfolding set_labels lookup
lookup-set_labels j [] m h = refl
lookup-set_labels j ((k, v) ∷ new) m (fresh, h) =
    ground (arith, eq_iff k j, lookup-set_labels j new (insert k v m) h, lookup-insert k j v m)

lookup-copy_label :
    (source : Labels) (k j : String) (m : Labels)
    → lookup j (copy_label source k m) ≡ (if str_eq k j then lookup j source else lookup j m)
lookup-copy_label source k j m = elim (Option-cases (lookup k source)) [
  | inl missing ↦ ground (arith, eq_iff k j, lookup-erase k j m)
  | inr (v, found) ↦ ground (arith, eq_iff k j, lookup-insert k j v m)
]

lookup-copy_labels :
    (source : Labels) (ks : List String) (j : String) (m : Labels)
    → lookup j (copy_labels source ks m) ≡ (if is_listed j ks then lookup j source else lookup j m)
unfolding copy_labels
lookup-copy_labels source [] j m = refl
lookup-copy_labels source (k ∷ ks) j m =
    ground (
      arith,
      lookup-copy_labels source ks j (copy_label source k m),
      lookup-copy_label source k j m,
    )

-- The labels that Omni is told: one of the copied labels is what the machine has of it, missing if it
-- has none; any other is the provider's machine label of that name if there is one, and otherwise the
-- old value if it is a system label and missing if it is not. The provider's labels name no key twice.
pub lookup-new_labels :
    (omni : OmniLabels) (machine_labels source old : Labels) (j : String)
    → NodupKeys machine_labels
    → lookup j (new_labels omni machine_labels source old) ≡ (
        if is_listed j omni.copied
        then lookup j source
        else or_else
            (lookup j machine_labels)
            (if starts_with j omni.system_prefix then lookup j old else none))
unfolding new_labels
lookup-new_labels omni machine_labels source old j h = ground (
  arith,
  lookup-copy_labels source omni.copied j
      (set_labels machine_labels (clear_labels omni.system_prefix old)),
  lookup-set_labels j machine_labels (clear_labels omni.system_prefix old) h,
  lookup-clear_labels omni.system_prefix j old,
)
