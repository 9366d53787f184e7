-- ===== src/Controllers/MachineStatus/Hook/Laws.antt =====
-- What the run hook never changes of a machine's status.
use mathlib.Core.Path.{subst}
use omni_infra_provider_bare.Base.{
  Bool, Bool-cases, List, Option, String, [], arith, eq_iff, false, if◌then◌else◌, inl, inr, map,
  none, refl, some, str_eq, sym, true, ◌||◌, ◌∷◌, ◌≡◌, ◌⊎◌,
}
use omni_infra_provider_bare.Resources.{
  BmcConfiguration, MachineStatus, Phase, running, tearing_down,
}
use omni_infra_provider_bare.Controllers.MachineStatus.{
  Observation, Store, current, handle_agent_connection_event, handle_pxe_boot_event, modify_status,
  poll_all, poll_list, poll_single, write_observation, write_status,
}
use omni_infra_provider_bare.Controllers.MachineStatus.Laws.{current-modify_status, poll_single_lem}
use omni_infra_provider_bare.Effects.{
  Done, Env, Failure, Outcome, Outcome-cases, Result-cases, World, done, err, final, ok, stop,
}
use omni_infra_provider_bare.Machine.{is_tearing_down_phase}
use omni_infra_provider_bare.Controllers.MachineStatus.Hook.{
  HookEvent, agent_connection, handle_event, pxe_boot, run_hook, tick,
}
use omni_infra_provider_bare.Controllers.Common.{Read}

-- A status and a later one of the same machine: its identity, its phase and its finalizers stay, a
-- machine that is known stays known, and a status that is torn down stays as it is.
pub record IsKept (s s' : MachineStatus) : Type 0 where
  pub same_id : s'.id ≡ s.id
  pub same_phase : s'.phase ≡ s.phase
  pub same_finalizers : s'.finalizers ≡ s.finalizers
  pub still_known : (s.initialized ≡ false) ⊎ (s'.initialized ≡ true)
  pub torn_down_untouched : (s.phase ≡ running) ⊎ (s' ≡ s)

IsKept-refl : (s : MachineStatus) → IsKept s s
IsKept-refl s = ground arith

IsKept-trans : (s t u : MachineStatus) → IsKept s t → IsKept t u → IsKept s u
IsKept-trans s t u k l =
    ground (arith, k.still_known, l.still_known, k.torn_down_untouched, l.torn_down_untouched)

-- A function on statuses that keeps a running one.
Keeps : (MachineStatus → MachineStatus) → Type 0
Keeps f = (s : MachineStatus) → s.phase ≡ running → IsKept s (f s)

abbrev modified : (MachineStatus → MachineStatus) → MachineStatus → MachineStatus
modified f s = if is_tearing_down_phase s.phase then s else f s

modified-IsKept :
    (f : MachineStatus → MachineStatus) (s : MachineStatus) → Keeps f → IsKept s (modified f s)
unfolding Keeps
modified-IsKept f s keeps = go s.phase refl
  where
    go : (p : Phase) → s.phase ≡ p → IsKept s (modified f s)
    go tearing_down e =
        subst (λ x. IsKept s (if is_tearing_down_phase x then s else f s)) (sym e) (IsKept-refl s)
    go running e =
        subst (λ x. IsKept s (if is_tearing_down_phase x then s else f s)) (sym e) (keeps s e)

one-IsKept :
    (id j : String) (f : MachineStatus → MachineStatus) (store : Store)
    → Keeps f
    → IsKept
        (current j store)
        (if str_eq id j then modified f (current id store) else current j store)
one-IsKept id j f store keeps = elim (Bool-cases (str_eq id j)) [
  | inl same ↦ rw same (
      subst (λ k. IsKept (current k store) (modified f (current id store))) ((eq_iff id j).0 same)
        (modified-IsKept f (current id store) keeps))
  | inr other ↦ rw other (IsKept-refl (current j store))
]

modify_status-IsKept :
    (id j : String) (f : MachineStatus → MachineStatus) (store : Store)
    → Keeps f
    → IsKept (current j store) (current j (modify_status id f store))
modify_status-IsKept id j f store keeps =
    subst (IsKept (current j store)) (sym (current-modify_status id j f store))
      (one-IsKept id j f store keeps)

write_observation-Keeps : (o : Observation) → Keeps (write_observation o)
unfolding Keeps
write_observation-Keeps o s live = ground (arith, live)

accessible-Keeps : (b : Bool) → Keeps (λ s. record s { agent_accessible = b })
unfolding Keeps
accessible-Keeps b s live = ground (arith, live)

initialized-Keeps : Keeps (λ s. record s { initialized = true })
unfolding Keeps
initialized-Keeps s live = ground (arith, live)

module _ (env : Env) where
  poll_single-IsKept :
      (connected : String → Bool) (id j : String) (bmc : Option BmcConfiguration)
      (writing : Option Failure) (w : World Store)
      → IsKept
          (current j w.res)
          (current j (final (poll_single env connected id bmc writing w)).res)
  poll_single-IsKept connected id j bmc none w =
      let (o, t, seen, traced, ended, same, after) = poll_single_lem env connected id bmc none w in
      elim after [
        | inl failing ↦ absurd (failing refl)
        | inr after ↦
            subst (IsKept (current j w.res)) (sym (after j))
              (one-IsKept id j (write_observation o) w.res (write_observation-Keeps o))
      ]
  poll_single-IsKept connected id j bmc (some failure) w =
      let (o, t, seen, traced, ended, same, after) =
        poll_single_lem env connected id bmc (some failure) w in
      elim same [
        | inl ok_write ↦ absurd (ground (arith, ok_write))
        | inr same ↦
            subst (λ res. IsKept (current j w.res) (current j res)) (sym same)
              (IsKept-refl (current j w.res))
      ]

  poll_list-IsKept :
      (connected : String → Bool) (bmcs : String → Option BmcConfiguration)
      (writing : String → Option Failure) (statuses : List MachineStatus) (j : String)
      (w : World Store)
      → IsKept
          (current j w.res)
          (current j (final (poll_list env connected bmcs writing statuses w)).res)
  unfolding poll_list
  poll_list-IsKept connected bmcs writing [] j w = IsKept-refl (current j w.res)
  poll_list-IsKept connected bmcs writing (s ∷ rest) j w =
      elim (Bool-cases (is_tearing_down_phase s.phase)) [
        | inl torn ↦ rw torn (poll_list-IsKept connected bmcs writing rest j w)
        | inr live ↦ rw live (
            let polled = final (poll_single env connected s.id (bmcs s.id) (writing s.id) w) in
            IsKept-trans (current j w.res) (current j polled.res) _
              (poll_single-IsKept connected s.id j (bmcs s.id) (writing s.id) w)
              (poll_list-IsKept connected bmcs writing rest j polled))
      ]

  write_status-IsKept :
      (writing : Option Failure) (id j : String) (f : MachineStatus → MachineStatus)
      (w : World Store)
      → Keeps f
      → IsKept (current j w.res) (current j (final (write_status writing id f w)).res)
  write_status-IsKept none id j f w keeps = modify_status-IsKept id j f w.res keeps
  write_status-IsKept (some failure) id j f w keeps = IsKept-refl (current j w.res)

  pxe_boot-IsKept :
      (connected : String → Bool) (id j : String) (bmc : Read BmcConfiguration)
      (writing polling : Option Failure) (w : World Store)
      → IsKept
          (current j w.res)
          (current j (final (handle_pxe_boot_event env connected id bmc writing polling w)).res)
  unfolding handle_pxe_boot_event
  pxe_boot-IsKept connected id j bmc (some failure) polling w = IsKept-refl (current j w.res)
  pxe_boot-IsKept connected id j bmc none polling w =
      let old = current id w.res in
      let w₁ : World Store = record w {
        res = modify_status id (λ s. record s { initialized = true }) w.res;
      } in
      let once =
        modify_status-IsKept id j (λ s. record s { initialized = true }) w.res initialized-Keeps in
      elim (Bool-cases (is_tearing_down_phase old.phase || old.initialized)) [
        | inl known ↦ rw known once
        | inr fresh ↦ elim (Result-cases bmc) [
          | inr (f, e) ↦ rw fresh (rw e once)
          | inl (c, e) ↦ rw fresh (
              rw e (
                IsKept-trans (current j w.res) (current j w₁.res) _ once
                  (poll_single-IsKept connected id j c polling w₁)))
        ]
      ]

  handle_event-IsKept :
      (e : HookEvent) (j : String) (w : World Store)
      → IsKept (current j w.res) (current j (final (handle_event env e w)).res)
  unfolding handle_event poll_all handle_agent_connection_event
  handle_event-IsKept (tick connected (err f) failing writing) j w = IsKept-refl (current j w.res)
  handle_event-IsKept (tick connected (ok bmcs) (some f) writing) j w =
      IsKept-refl (current j w.res)
  handle_event-IsKept (tick connected (ok bmcs) none writing) j w =
      poll_list-IsKept connected bmcs writing (map (λ e. e.1) w.res) j w
  handle_event-IsKept (agent_connection id connected writing) j w =
      write_status-IsKept writing id j (λ s. record s { agent_accessible = connected }) w
        (accessible-Keeps connected)
  handle_event-IsKept (pxe_boot connected id bmc writing polling) j w =
      pxe_boot-IsKept connected id j bmc writing polling w

  abbrev continue : List HookEvent → Outcome Store Done → Outcome Store Done
  continue rest r = elim r [ done _ w' ↦ run_hook env rest w' | stop x w' ↦ stop x w' ]

  -- Whatever the run hook takes, in whatever order, and whichever of its writes fail, for every machine:
  -- its status keeps its id, its phase and its finalizers, a machine that is known stays known, and a
  -- status that is torn down is not changed at all.
  pub run_hook-IsKept :
      (events : List HookEvent) (j : String) (w : World Store)
      → IsKept (current j w.res) (current j (final (run_hook env events w)).res)
  unfolding run_hook
  run_hook-IsKept [] j w = IsKept-refl (current j w.res)
  run_hook-IsKept (e ∷ rest) j w = elim (Outcome-cases (handle_event env e w)) [
    | inl (_, w', h) ↦
        subst (λ r. IsKept (current j w.res) (current j (final (continue rest r)).res)) (sym h)
          (IsKept-trans (current j w.res) (current j w'.res) _
            (subst (λ r. IsKept (current j w.res) (current j (final r).res)) h
              (handle_event-IsKept e j w))
            (run_hook-IsKept rest j w'))
    | inr (x, w', h) ↦
        subst (λ r. IsKept (current j w.res) (current j (final (continue rest r)).res)) (sym h)
          (subst (λ r. IsKept (current j w.res) (current j (final r).res)) h
            (handle_event-IsKept e j w))
  ]
