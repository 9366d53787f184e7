-- ===== src/Provider/Labels.antt =====
-- The labels of the machines, as they are given on the command line (parseLabels).
use mathlib.Core.List.{reverse, reverse-cons}
use omni_infra_provider_bare.Base.{
  All, Lacks, List, Option, Option-cases, String, [], ap, arith, inl, inr, map, none, refl, some,
  split_on-append, split_on_whole, ◌++◌, ◌<>◌, ◌∙◌, ◌∷◌, ◌≡◌,
}
use omni_infra_provider_bare.Base.Dict.{insert, lookup, lookup-insert}
use omni_infra_provider_bare.Effects.{ok}
use omni_infra_provider_bare.Provider.{Options, parse_into, parse_label, parse_labels}
use omni_infra_provider_bare.Provider.Laws.{or_else}

-- How a label is written: the key alone, or with a value after an equals sign.
abbrev pub print_label : String × Option String → String
print_label (key, none) = key
print_label (key, some value) = key <> "=" <> value

-- Neither part has an equals sign.
abbrev pub IsLabel : String × Option String → Type 0
IsLabel (key, none) = Lacks b'=' key
IsLabel (key, some value) = Lacks b'=' key × Lacks b'=' value

-- A label without a value has the empty one.
abbrev pub entry_of : String × Option String → String × String
entry_of (key, none) = (key, "")
entry_of (key, some value) = (key, value)

parse_label-print_label :
    (l : String × Option String) → IsLabel l → parse_label (print_label l) ≡ ok (entry_of l)
unfolding parse_label
parse_label-print_label (key, none) h = rw (parse_label, split_on_whole b'=' key h) refl
parse_label-print_label (key, some value) (k, v) =
    rw (parse_label, split_on-append "=" key value k, split_on_whole b'=' value v) refl

insert_all : List (String × String) → List (String × String) → List (String × String)
insert_all [] labels = labels
insert_all ((key, value) ∷ rest) labels = insert_all rest (insert key value labels)

parse_into-print_label :
    (ls : List (String × Option String)) (labels : List (String × String))
    → All IsLabel ls
    → parse_into (map print_label ls) labels ≡ ok (insert_all (map entry_of ls) labels)
unfolding parse_into insert_all
parse_into-print_label [] labels h = refl
parse_into-print_label (l ∷ ls) labels h =
    rw (parse_into, parse_label-print_label l h.0)
      (parse_into-print_label ls (insert (entry_of l).0 (entry_of l).1 labels) h.1)

lookup-append :
    {V : Type 0} (key : String) (xs ys : List (String × V))
    → lookup key (xs ++ ys) ≡ or_else (lookup key xs) (lookup key ys)
unfolding lookup
lookup-append key [] ys = refl
lookup-append key ((name, value) ∷ xs) ys = let smaller = lookup-append key xs ys in ground arith

lookup-insert_all :
    (key : String) (entries labels : List (String × String))
    → lookup key (insert_all entries labels)
      ≡ or_else (lookup key (reverse entries)) (lookup key labels)
unfolding insert_all lookup
lookup-insert_all key [] labels = refl
lookup-insert_all key ((k, v) ∷ rest) labels =
    let smaller = lookup-insert_all key rest (insert k v labels) in
    let inserted = lookup-insert k key v labels in
    let turned = ap (lookup key) (reverse-cons (k, v) rest) in
    let apart = lookup-append key (reverse rest) ((k, v) ∷ []) in
    elim (Option-cases (lookup key (reverse rest))) [
      | inl e ↦ ground (arith, smaller, inserted, turned, apart, e)
      | inr (later, e) ↦ ground (arith, smaller, inserted, turned, apart, e)
    ]

or_else-none : {A : Type 0} (a : Option A) → or_else a none ≡ a
or_else-none none = refl
or_else-none (some a) = refl

-- The labels are read as they are written: of a list of labels whose keys and values have no equals
-- sign, each key has the last value that is written for it, which is empty where there is no equals
-- sign, and no other key has one.
pub parse_labels-print_label :
    (o : Options) (ls : List (String × Option String)) (key : String)
    → All IsLabel ls
    → o.machine_labels ≡ map print_label ls
    → (labels : List (String × String)) × (parse_labels o ≡ ok labels)
      × (lookup key labels ≡ lookup key (reverse (map entry_of ls)))
unfolding parse_labels lookup
parse_labels-print_label o ls key h written = (
  insert_all (map entry_of ls) [],
  rw (written) (parse_into-print_label ls [] h),
  lookup-insert_all key (map entry_of ls) []
      ∙ or_else-none (lookup key (reverse (map entry_of ls))),
)
