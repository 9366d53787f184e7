-- ===== src/Provider/Components/Steps.antt =====
-- What an event of a goroutine does to the group.
use mathlib.Core.Path.{subst}
use omni_infra_provider_bare.Base.{
  All, Bool, List, Option-cases, [], ap, arith, false, inl, inr, map, none, refl, some, suc, true,
  zero, ℕ, ◌+◌, ◌∷◌, ◌≡◌, ◌⊎◌,
}
use omni_infra_provider_bare.Provider.Components.{
  Component, GoEvent, GoPhase, cancels, ended, error_of, go_at, go_step, returning, returns,
  running, stops,
}

abbrev pub names : List (Component × GoPhase) → List Component
names = map (λ e. e.0)

abbrev steps_of : GoPhase → ℕ
steps_of running = 2
steps_of (returning e) = 1
steps_of (ended e) = 0

-- The steps that the goroutines have before them: none if all have returned.
abbrev pub left : List (Component × GoPhase) → ℕ
left [] = 0
left ((name, phase) ∷ rest) = steps_of phase + left rest

unfoldable pub NotEnded : GoPhase → Type 0
NotEnded running = Unit
NotEnded (returning e) = Unit
NotEnded (ended e) = ⊥

unfoldable pub NoneEnded : List (Component × GoPhase) → Type 0
NoneEnded gs = All (λ (g : Component × GoPhase). NotEnded g.1) gs

record StepsTo (c : Bool) (phase phase' : GoPhase) (c' : Bool) : Type 0 where
  fewer : suc (steps_of phase') ≡ steps_of phase
  stays : (c ≡ false) ⊎ (c' ≡ true)
  quiet : (c' ≡ true) ⊎ NotEnded phase'

go_step_lem :
    (c : Bool) (event : GoEvent) (phase phase' : GoPhase) (c' : Bool)
    → go_step c event phase ≡ some (phase', c')
    → StepsTo c phase phase' c'
unfolding go_step NotEnded
go_step_lem c (returns e) running phase' c' h = ground (arith, h)
go_step_lem true (stops e) running phase' c' h = ground (arith, h)
go_step_lem false (stops e) running phase' c' h = ground (arith, h)
go_step_lem c cancels running phase' c' h = ground (arith, h)
go_step_lem c (returns e) (returning x) phase' c' h = ground (arith, h)
go_step_lem c (stops e) (returning x) phase' c' h = ground (arith, h)
go_step_lem c cancels (returning x) phase' c' h = ground (arith, h)
go_step_lem c event (ended x) phase' c' h = ground (arith, h)

pub record MovesTo (c : Bool) (gs gs' : List (Component × GoPhase)) (phase' : GoPhase) (c' : Bool)
    : Type 0 where
  pub same : names gs' ≡ names gs
  pub fewer : suc (left gs') ≡ left gs
  pub stays : (c ≡ false) ⊎ (c' ≡ true)
  pub quiet : NoneEnded gs → (c' ≡ true) ⊎ (NoneEnded gs' × (error_of phase' ≡ none))

no_error : (phase : GoPhase) → NotEnded phase → error_of phase ≡ none
unfolding NotEnded
no_error running h = refl
no_error (returning e) h = refl
no_error (ended e) h = elim h [ ]

pub same_some : {A : Type 0} {a b : A} → some a ≡ some b → a ≡ b
same_some {a = a} e = ap (λ o. elim o [ none ↦ a | some x ↦ x ]) e

pub go_at_lem :
    (c : Bool) (event : GoEvent) (n : ℕ) (gs gs' : List (Component × GoPhase)) (phase' : GoPhase)
    (c' : Bool)
    → go_at c event n gs ≡ some (gs', phase', c')
    → MovesTo c gs gs' phase' c'
unfolding go_at NoneEnded
go_at_lem c event n [] gs' phase' c' h = ground (arith, h)
go_at_lem c event zero ((name, phase) ∷ rest) gs' phase' c' h =
    elim (Option-cases (go_step c event phase)) [
      | inl never ↦ ground (arith, rw (never, go_at) at h)
      | inr ((p, c₁), now) ↦
          let k = go_step_lem c event phase p c₁ now in
          let e = same_some (rw (now, go_at) at h) in
          subst
            (λ (x : List (Component × GoPhase) × GoPhase × Bool).
              MovesTo c ((name, phase) ∷ rest) x.0 x.1 x.2)
            e
            (record {
              same = refl;
              fewer = omega (arith, k.fewer);
              stays = k.stays;
              quiet = λ none_ended. elim k.quiet [
                | inl told ↦ inl told
                | inr q ↦ inr ((q, none_ended.1), no_error p q)
              ];
            })
    ]
go_at_lem c event (suc n) ((name, phase) ∷ rest) gs' phase' c' h =
    elim (Option-cases (go_at c event n rest)) [
      | inl never ↦ ground (arith, rw (never, go_at) at h)
      | inr ((rest', p, c₁), now) ↦
          let k = go_at_lem c event n rest rest' p c₁ now in
          let e = same_some (rw (now, go_at) at h) in
          subst
            (λ (x : List (Component × GoPhase) × GoPhase × Bool).
              MovesTo c ((name, phase) ∷ rest) x.0 x.1 x.2)
            e
            (record {
              same = ap (λ l. name ∷ l) k.same;
              fewer = omega (arith, k.fewer);
              stays = k.stays;
              quiet = λ none_ended. elim (k.quiet none_ended.1) [
                | inl told ↦ inl told
                | inr (q, e') ↦ inr ((none_ended.0, q), e')
              ];
            })
    ]
