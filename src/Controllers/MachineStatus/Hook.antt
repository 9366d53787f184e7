-- ===== src/Controllers/MachineStatus/Hook.antt =====
-- The run hook of internal/provider/controllers/machine_status.go: ticks of the poll, and the events of the
-- agents' connections and of PXE boots, in the order in which the loop's select takes them.
pub mod Laws
mod Tests
use omni_infra_provider_bare.Base.{Bool, List, Option, String, [], map, none, some, ◌∷◌}
use omni_infra_provider_bare.Resources.{BmcConfiguration, MachineStatus}
use omni_infra_provider_bare.Effects.{Done, Env, Failure, M, Result, done, err, ok, stop}
use omni_infra_provider_bare.Controllers.Common.{Read}
use omni_infra_provider_bare.Controllers.MachineStatus.{
  Store, handle_agent_connection_event, handle_pxe_boot_event, poll_all,
}

-- What the loop takes, with what is read then: the connected machines, the BMC configurations or the
-- error of listing them, and an error of listing the statuses; and with the errors of the writes, of a
-- poll by id, and for a PXE boot that of its own write and that of the poll's.
pub data HookEvent : Type 0 where
  tick :
      (String → Bool)
      → Result Failure (String → Option BmcConfiguration)
      → Option Failure
      → (writing : String → Option Failure) → HookEvent
  agent_connection : (id : String) (connected : Bool) (writing : Option Failure) → HookEvent
  pxe_boot :
      (String → Bool)
      → (id : String) → Read BmcConfiguration
      → (writing polling : Option Failure) → HookEvent

-- The list of the statuses in the store, unless it cannot be had.
abbrev pub listed : Option Failure → Store → Result Failure (List MachineStatus)
listed none store = ok (map (λ e. e.1) store)
listed (some f) store = err f

module _ (env : Env) where
  -- One round of the loop.
  unfoldable pub handle_event : HookEvent → M Store Done
  handle_event (tick connected bmcs failing writing) w =
      poll_all env connected bmcs (listed failing w.res) writing w
  handle_event (agent_connection id connected writing) w =
      handle_agent_connection_event env id connected writing w
  handle_event (pxe_boot connected id bmc writing polling) w =
      handle_pxe_boot_event env connected id bmc writing polling w

  -- The loop, until an event ends with an error or the context is canceled after the last one.
  unfoldable pub run_hook : List HookEvent → M Store Done
  run_hook [] w = done tt w
  run_hook (e ∷ rest) w = elim (handle_event e w) [
    | done _ w' ↦ run_hook rest w'
    | stop x w' ↦ stop x w'
  ]
