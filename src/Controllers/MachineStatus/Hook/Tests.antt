-- ===== src/Controllers/MachineStatus/Hook/Tests.antt =====
-- A run of the hook: the agent of a machine connects, the poll ticks, and the machine boots over PXE.
use omni_infra_provider_bare.Base.{List, String, [], false, none, some, true, ◌∷◌}
use omni_infra_provider_bare.Effects.{World, final, ok}
use omni_infra_provider_bare.Samples.{bmc1, broken, by_hand, calm, silent}
use omni_infra_provider_bare.Controllers.MachineStatus.{Store, current}
use omni_infra_provider_bare.Controllers.MachineStatus.Hook.{
  HookEvent, agent_connection, pxe_boot, run_hook, tick,
}
use omni_infra_provider_bare.Controllers.MachineStatus.Hook.Laws.{IsKept, run_hook-IsKept}

abbrev known : World Store
known = record { res = ("m1", silent) ∷ []; trace = [] }

abbrev events : List HookEvent
events =
    agent_connection "m1" true none
    ∷ tick (λ (j : String). true) (ok (λ (j : String). some by_hand)) none
        (λ (j : String). some broken)
    ∷ pxe_boot (λ (j : String). true) "m1" (ok (some bmc1)) none (some broken)
    ∷ agent_connection "m1" false none
    ∷ tick (λ (j : String). true) (ok (λ (j : String). some by_hand)) none (λ (j : String). none)
    ∷ []

run_hook-IsKept_example :
    IsKept (current "m1" known.res) (current "m1" (final (run_hook calm events known)).res)
run_hook-IsKept_example = run_hook-IsKept calm events "m1" known
