-- ===== src/Controllers/MachineStatus/Tests.antt =====
-- A poll of a concrete machine.
use omni_infra_provider_bare.Base.{
  Option, String, [], if◌then◌else◌, none, some, str_eq, true, ◌∷◌, ◌≡◌, ◌≢◌, ◌⊎◌,
}
use omni_infra_provider_bare.Machine.{is_tearing_down_phase}
use omni_infra_provider_bare.Effects.{Failure, Trace, World, done, final}
use omni_infra_provider_bare.Samples.{by_hand, calm, silent}
use omni_infra_provider_bare.Controllers.MachineStatus.{
  Observation, Store, current, poll_single, write_observation,
}
use omni_infra_provider_bare.Controllers.MachineStatus.Laws.{IsObserved, poll_single_lem}

abbrev known : World Store
known = record { res = ("m1", silent) ∷ []; trace = [] }

abbrev written : Option Failure
written = none

poll_single_lem_example :
    let w' = final (poll_single calm (λ (j : String). true) "m1" (some by_hand) written known) in
    (o : Observation) × (t : Trace) × IsObserved calm (λ (j : String). true) "m1" (some by_hand) t o
    × (w'.trace ≡ t)
    × (poll_single calm (λ (j : String). true) "m1" (some by_hand) written known ≡ done tt w')
    × ((written ≡ none) ⊎ (w'.res ≡ known.res))
    × ((written ≢ none)
        ⊎ ((j : String)
            → current j w'.res ≡ (
                if str_eq "m1" j
                then (if is_tearing_down_phase (current "m1" known.res).phase
                    then current "m1" known.res
                    else write_observation o (current "m1" known.res))
                else current j known.res)))
poll_single_lem_example =
    poll_single_lem calm (λ (j : String). true) "m1" (some by_hand) written known
