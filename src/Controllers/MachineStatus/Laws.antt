-- ===== src/Controllers/MachineStatus/Laws.antt =====
-- What a poll writes, and what it leaves alone.
use omni_infra_provider_bare.Base.{
  Bool, Option, String, arith, eq_iff, false, if◌then◌else◌, inl, inr, none, refl, some, str_eq,
  true, ◌∷◌, ◌≡◌, ◌≢◌, ◌⊎◌,
}
use omni_infra_provider_bare.Base.Dict.{lookup-insert}
use omni_infra_provider_bare.Resources.{
  BmcConfiguration, MachineStatus, off, on, tearing_down, unknown,
}
use omni_infra_provider_bare.Machine.{is_manually_powered, is_tearing_down_phase}
use omni_infra_provider_bare.Effects.{
  Done, Env, Error, Failure, Outcome, Outcome-cases, Result, Trace, World, done, err, failed, final,
  is_accessible, ok, stop,
}
use omni_infra_provider_bare.Controllers.Common.{Read}
use omni_infra_provider_bare.Controllers.MachineStatus.{
  Observation, Store, current, handle_pxe_boot_event, modify_status, observe, poll_single,
  write_observation,
}

pub current-modify_status :
    (id j : String) (f : MachineStatus → MachineStatus) (store : Store)
    → current j (modify_status id f store) ≡ (
        if str_eq id j
        then (if is_tearing_down_phase (current id store).phase
            then current id store
            else f (current id store))
        else current j store)
unfolding modify_status
current-modify_status id j f store = ground (
  arith,
  lookup-insert id j
      (if is_tearing_down_phase (current id store).phase
        then current id store
        else f (current id store))
      store,
)

module _ (env : Env) (connected : String → Bool) (id : String) where
  abbrev is_yes : Result Failure Bool → Bool
  is_yes (ok b) = b
  is_yes (err f) = false

  -- The last call asked the agent whether it is accessible, and the answer was yes.
  abbrev pub answered : Trace → Bool
  answered (is_accessible _ ∷ t) = is_yes (env.accessible t id)
  answered _ = false

  -- What a poll of a BMC configuration has found.
  pub record IsObserved (bmc : Option BmcConfiguration) (trace : Trace) (o : Observation)
      : Type 0 where
    -- The agent counts as accessible only if it is connected and answered that it is, last of all.
    pub agent_answered : (o.agent ≡ false) ⊎ ((connected id ≡ true) × (answered trace ≡ true))
    -- A manually powered machine is on exactly if its agent is accessible, and else unknown.
    pub by_hand : (is_manually_powered bmc ≡ false) ⊎ (o.power ≡ (if o.agent then on else unknown))
    -- Without a BMC configuration the power state is unknown.
    pub unconfigured : (bmc ≢ none) ⊎ (o.power ≡ unknown)
    -- A machine that is off has no accessible agent.
    pub off_silent : (o.power ≢ off) ⊎ (o.agent ≡ false)

  observe-IsObserved :
      (bmc : Option BmcConfiguration) (w : World Store) {o : Observation} {w' : World Store}
      → observe env connected id bmc w ≡ done o w'
      → IsObserved bmc w'.trace o
  unfolding observe is_manually_powered
  observe-IsObserved none w h = ground arith
  observe-IsObserved (some c) w h = ground arith

  observe_keeps :
      (bmc : Option BmcConfiguration) (w : World Store)
      → (final (observe env connected id bmc w)).res ≡ w.res
  unfolding observe is_manually_powered
  observe_keeps none w = ground arith
  observe_keeps (some c) w = ground arith

  observe_ends :
      (bmc : Option BmcConfiguration) (w : World Store) {e : Error} {w' : World Store}
      → observe env connected id bmc w ≢ stop e w'
  unfolding observe is_manually_powered
  observe_ends none w h = ground arith
  observe_ends (some c) w h = ground arith

  abbrev as_written : Option Failure → World Store → Outcome Store Done
  as_written none w = done tt w
  as_written (some failure) w = stop (failed failure) w

  -- A poll ends with an error exactly if the write of the status fails, and then with that error and
  -- the statuses as they were: a failing BMC or agent does not end it. If the write succeeds, a status
  -- that is not torn down holds the power state and the accessibility that were observed and is
  -- otherwise as before, a status that is torn down is as before, and so is that of every other
  -- machine. What is observed: the agent counts as accessible only if it is connected and answered so;
  -- a manually powered machine is on exactly if its agent is accessible and unknown otherwise, never
  -- off; without a BMC configuration the power state is unknown; and a machine that is off has no
  -- accessible agent.
  pub poll_single_lem :
      (bmc : Option BmcConfiguration) (writing : Option Failure) (w : World Store)
      → let w' = final (poll_single env connected id bmc writing w) in
        (o : Observation) × (t : Trace) × IsObserved bmc t o
        × (w'.trace ≡ t)
        × (poll_single env connected id bmc writing w ≡ as_written writing w')
        × ((writing ≡ none) ⊎ (w'.res ≡ w.res))
        × ((writing ≢ none)
            ⊎ ((j : String)
                → current j w'.res ≡ (
                    if str_eq id j
                    then (if is_tearing_down_phase (current id w.res).phase
                        then current id w.res
                        else write_observation o (current id w.res))
                    else current j w.res)))
  unfolding poll_single
  poll_single_lem bmc none w = elim (Outcome-cases (observe env connected id bmc w)) [
    | inr (e, w', h) ↦ absurd (observe_ends bmc w h)
    | inl (o, w', h) ↦ (
      o,
      w'.trace,
      observe-IsObserved bmc w h,
      ground arith,
      ground arith,
      inl refl,
      inr λ j.
          ground
            (arith, observe_keeps bmc w, current-modify_status id j (write_observation o) w'.res),
    )
  ]
  poll_single_lem bmc (some failure) w = elim (Outcome-cases (observe env connected id bmc w)) [
    | inr (e, w', h) ↦ absurd (observe_ends bmc w h)
    | inl (o, w', h) ↦ (
      o,
      w'.trace,
      observe-IsObserved bmc w h,
      ground arith,
      ground arith,
      inr (ground (arith, observe_keeps bmc w)),
      inl (ground arith),
    )
  ]

  -- A PXE boot request makes a machine known once: its status is initialized unless it is torn down,
  -- and one that was torn down or initialized before is asked and polled no more.
  pxe_boot_once :
      (bmc : Read BmcConfiguration) (polling : Option Failure) (w : World Store)
      → ((current id w.res).phase ≡ tearing_down) ⊎ ((current id w.res).initialized ≡ true)
      → let s = current id w.res in
        let w' = final (handle_pxe_boot_event env connected id bmc none polling w) in
        (w'.trace ≡ w.trace)
        × (current id w'.res
            ≡ (if is_tearing_down_phase s.phase then s else record s { initialized = true }))
  unfolding handle_pxe_boot_event
  pxe_boot_once bmc polling w h = ground (
    arith,
    eq_iff id id,
    current-modify_status id id (λ (s : MachineStatus). record s { initialized = true }) w.res,
  )
