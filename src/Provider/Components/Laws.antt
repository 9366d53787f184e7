-- ===== src/Provider/Components/Laws.antt =====
-- How the components end together.
use mathlib.Core.Path.{subst}
use omni_infra_provider_bare.Base.{
  Bool, Bool-cases, List, Option-cases, [], ap, arith, false, inl, inr, map, none, refl, some, suc,
  true, ℕ, ◌∙◌, ◌∷◌, ◌≡◌, ◌⊎◌,
}
use omni_infra_provider_bare.Provider.Components.{
  Component, GoEvent, GoPhase, Group, Reach, canceled, cancels, components, ended, error_of,
  first_error, go_at, go_step, group_step, next, returning, returns, running, start, started, stops,
}
use omni_infra_provider_bare.Provider.Components.Steps.{
  MovesTo, NoneEnded, NotEnded, go_at_lem, left, names, same_some,
}

-- An event that needs no component to return by itself: a run stops because the context is canceled, or
-- the deferred cancel is called.
abbrev pub is_assured : GoEvent → Bool
is_assured (returns e) = false
is_assured (stops e) = true
is_assured cancels = true

-- An assured event is next.
abbrev Next : Bool → List (Component × GoPhase) → Type 0
Next c gs =
    (event : GoEvent) × (n : ℕ) × (result : List (Component × GoPhase) × GoPhase × Bool)
    × (is_assured event ≡ true)
    × (go_at c event n gs ≡ some result)

later :
    (c : Bool) (g : Component × GoPhase) (gs : List (Component × GoPhase))
    → Next c gs
    → Next c (g ∷ gs)
unfolding go_at
later c g gs (event, n, (gs', p, c'), assured, h) =
    (event, suc n, (g ∷ gs', p, c'), assured, rw (go_at, h) refl)

-- Once the context is canceled.
canceled_next : (gs : List (Component × GoPhase)) → (left gs ≡ 0) ⊎ Next true gs
unfolding go_at go_step
canceled_next [] = inl refl
canceled_next ((name, running) ∷ rest) =
    inr (stops none, 0, ((name, returning none) ∷ rest, returning none, true), refl, refl)
canceled_next ((name, returning e) ∷ rest) =
    inr (cancels, 0, ((name, ended e) ∷ rest, ended e, true), refl, refl)
canceled_next ((name, ended e) ∷ rest) = elim (canceled_next rest) [
  | inl none_left ↦ inl (omega (arith, none_left))
  | inr further ↦ inr (later true (name, ended e) rest further)
]

-- Before.
abbrev as_started : List (Component × GoPhase) → List (Component × GoPhase)
as_started gs = map (λ c. (c, running)) (names gs)

waiting_next :
    (gs : List (Component × GoPhase)) → NoneEnded gs → (gs ≡ as_started gs) ⊎ Next false gs
unfolding go_at go_step NoneEnded NotEnded
waiting_next [] h = inl refl
waiting_next ((name, running) ∷ rest) h = elim (waiting_next rest h.1) [
  | inl same ↦ inl (ap (λ l. (name, running) ∷ l) same)
  | inr further ↦ inr (later false (name, running) rest further)
]
waiting_next ((name, returning e) ∷ rest) h =
    inr (cancels, 0, ((name, ended e) ∷ rest, ended e, true), refl, refl)
waiting_next ((name, ended e) ∷ rest) h = elim h.0 [ ]

-- In a group that is not canceled, no goroutine has returned.
record IsSound (cs : List Component) (g : Group) : Type 0 where
  same : names g.goroutines ≡ cs
  quiet : (g.is_canceled ≡ true) ⊎ (NoneEnded g.goroutines × (g.error ≡ none))

names_started : (cs : List Component) → names (map (λ c. (c, running)) cs) ≡ cs
names_started [] = refl
names_started (c ∷ cs) = ap (λ l. c ∷ l) (names_started cs)

started_quiet : (cs : List Component) → NoneEnded (map (λ c. (c, running)) cs)
unfolding NoneEnded NotEnded
started_quiet [] = tt
started_quiet (c ∷ cs) = (tt, started_quiet cs)

started-IsSound : (cs : List Component) → IsSound cs (started cs)
unfolding started
started-IsSound cs = record { same = names_started cs; quiet = inr (started_quiet cs, refl) }

record IsStep (cs : List Component) (g g' : Group) : Type 0 where
  sound : IsSound cs g'
  fewer : suc (left g'.goroutines) ≡ left g.goroutines

abbrev after : Group → List (Component × GoPhase) × GoPhase × Bool → Group
after g (gs, p, c) = record {
  goroutines = gs;
  is_canceled = c;
  error = first_error g.error (error_of p);
}

group_step-after :
    (event : GoEvent) (n : ℕ) (g : Group) (r : List (Component × GoPhase) × GoPhase × Bool)
    → go_at g.is_canceled event n g.goroutines ≡ some r
    → group_step event n g ≡ some (after g r)
unfolding group_step
group_step-after event n g (gs, p, c) h = rw (group_step, h) refl

after-IsStep :
    (cs : List Component) (g : Group) (gs : List (Component × GoPhase)) (p : GoPhase) (c : Bool)
    → MovesTo g.is_canceled g.goroutines gs p c
    → IsSound cs g
    → IsStep cs g (after g (gs, p, c))
after-IsStep cs g gs p c k sound = record {
  sound = record {
    same = k.same ∙ sound.same;
    quiet = elim sound.quiet [
      | inl told ↦ inl (ground (arith, told, k.stays))
      | inr (q, e) ↦ elim (k.quiet q) [
        | inl told ↦ inl told
        | inr (q', e') ↦ inr (q', rw (e, e') refl)
      ]
    ];
  };
  fewer = k.fewer;
}

group_step-IsStep :
    (cs : List Component) (event : GoEvent) (n : ℕ) (g g' : Group)
    → group_step event n g ≡ some g'
    → IsSound cs g
    → IsStep cs g g'
unfolding group_step
group_step-IsStep cs event n g g' h sound =
    elim (Option-cases (go_at g.is_canceled event n g.goroutines)) [
      | inl never ↦ ground (arith, rw (never, group_step) at h)
      | inr ((gs, p, c), now) ↦
          subst (IsStep cs g) (same_some (rw (now, group_step) at h)) (
            after-IsStep cs g gs p c (go_at_lem g.is_canceled event n g.goroutines gs p c now)
              sound)
    ]

Reach-IsSound : (cs : List Component) (g : Group) → Reach cs g → IsSound cs g
Reach-IsSound cs g start = started-IsSound cs
Reach-IsSound cs g (canceled r) = record { same = (Reach-IsSound cs _ r).same; quiet = inl refl }
Reach-IsSound cs g (next r event n h) =
    (group_step-IsStep cs event n _ g h (Reach-IsSound cs _ r)).sound

-- An event that needs no component to return by itself can happen.
abbrev pub Stops : Group → Type 0
Stops g =
    (event : GoEvent) × (n : ℕ) × (g' : Group) × (is_assured event ≡ true)
    × (group_step event n g ≡ some g')

Next-Stops : (g : Group) → Next g.is_canceled g.goroutines → Stops g
Next-Stops g (event, n, r, assured, h) =
    (event, n, after g r, assured, group_step-after event n g r h)

started_or_further :
    (cs : List Component) (g : Group)
    → IsSound cs g
    → (g ≡ started cs) ⊎ (left g.goroutines ≡ 0) ⊎ Stops g
unfolding started
started_or_further cs g sound = elim (Bool-cases g.is_canceled) [
  | inl told ↦ elim (canceled_next g.goroutines) [
    | inl none_left ↦ inr (inl none_left)
    | inr further ↦ inr (inr (Next-Stops g (rw told further)))
  ]
  | inr quiet ↦ elim sound.quiet [
    | inl told ↦ ground (arith, told, quiet)
    | inr (q, e) ↦ elim (waiting_next g.goroutines q) [
      | inr further ↦ inr (inr (Next-Stops g (rw quiet further)))
      | inl same ↦
          inl (ground (arith, same ∙ ap (λ l. map (λ c. (c, running)) l) sound.same, quiet, e))
    ]
  ]
]

-- The components stop together. In every state that runComponents can reach, the goroutines are those of
-- the components, and either all runs as it was started, or all have returned, or an event can happen
-- for which no component needs to return by itself: a deferred cancel, or, once the context is canceled,
-- the stop of a run. Any event of a goroutine is one of the steps that are left, which are two for a run
-- that is on and one for a deferred cancel. So once a component has returned, with an error or without one,
-- or the context is canceled, all goroutines come to their end, if the runs stop when the context is
-- canceled.
pub stopped_together :
    (disable_dhcp_proxy : Bool) (g : Group)
    → Reach (components disable_dhcp_proxy) g
    → (names g.goroutines ≡ components disable_dhcp_proxy)
      × ((g ≡ started (components disable_dhcp_proxy)) ⊎ (left g.goroutines ≡ 0) ⊎ Stops g)
      × ((event : GoEvent) (n : ℕ) (g' : Group)
          → group_step event n g ≡ some g'
          → suc (left g'.goroutines) ≡ left g.goroutines)
stopped_together off g r =
    let k = Reach-IsSound (components off) g r in
    (
      k.same,
      started_or_further (components off) g k,
      λ event n g' h. (group_step-IsStep (components off) event n g g' h k).fewer,
    )
