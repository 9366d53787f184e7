-- ===== src/Controllers/MachineStatus.antt =====
-- internal/provider/controllers/machine_status.go: what is known of each machine. The store is the
-- dictionary of the machine statuses by id, and the calls are those of the environment.
pub mod Laws
pub mod Reconcile
pub mod Hook
mod Tests
use omni_infra_provider_bare.Base.{
  Bool, List, Option, String, [], false, if◌then◌else◌, none, some, true, ◌&&◌, ◌||◌, ◌∷◌,
}
use omni_infra_provider_bare.Base.Dict.{insert, lookup}
use omni_infra_provider_bare.Resources.{
  BmcConfiguration, MachineStatus, PowerState, off, on, running, unknown,
}
use omni_infra_provider_bare.Machine.{is_manually_powered, is_tearing_down_phase}
use omni_infra_provider_bare.Effects.{
  Done, Env, Failure, M, Result, ask, branch, close_client, done, err, failed, final, get_client,
  gets, is_accessible, is_powered_on, lift, log, ok, pure, stop, ◌>>=◌, ◌>>◌,
}
use omni_infra_provider_bare.Controllers.Common.{Read}

abbrev pub Store : Type 0
Store = List (String × MachineStatus)

-- resources.NewMachineStatus
abbrev pub new_machine_status : String → MachineStatus
new_machine_status id = record {
  id = id;
  phase = running;
  finalizers = [];
  agent_accessible = false;
  power_state = unknown;
  initialized = false;
}

abbrev pub current : String → Store → MachineStatus
current id store = elim (lookup id store) [ some s ↦ s | none ↦ new_machine_status id ]

-- safe.WriterModify with a function that leaves a resource alone while it is torn down. A resource that
-- is not there is created.
unfoldable pub modify_status : String → (MachineStatus → MachineStatus) → Store → Store
modify_status id f store =
    let s = current id store in insert id (if is_tearing_down_phase s.phase then s else f s) store

-- A write of a status, with the error of safe.WriterModify if it has one; nothing is written then.
abbrev pub write_status : Option Failure → String → (MachineStatus → MachineStatus) → M Store Done
write_status none id f w = done tt (record w { res = modify_status id f w.res })
write_status (some failure) id f w = stop (failed failure) w

-- What a poll finds out.
pub record Observation : Type 0 where
  pub power : PowerState
  pub agent : Bool

abbrev pub write_observation : Observation → MachineStatus → MachineStatus
write_observation o s = record s { power_state = o.power; agent_accessible = o.agent }

abbrev is_off : PowerState → Bool
is_off off = true
is_off _ = false

module _ (env : Env) where
  -- getPowerState; its error is only logged by the caller, so it is the state that is left then.
  get_power_state : BmcConfiguration → M Store PowerState
  get_power_state c w = elim (env.client w.trace c) [
    | err f ↦ done unknown (log get_client w)
    | ok caps ↦
        let t = log get_client w in
        elim (env.power t.trace) [
          | err f ↦ done unknown (log close_client (log is_powered_on t))
          | ok true ↦ done on (log close_client (log is_powered_on t))
          | ok false ↦ done off (log close_client (log is_powered_on t))
        ]
  ]

  abbrev accessible_of : Result Failure Bool → Bool
  accessible_of (ok b) = b
  accessible_of (err f) = false

  -- agentConnected, with the set of the connected machines as a test; the caller only logs its error,
  -- and what is left is false, as it is where the error ends the context.
  agent_connected : (String → Bool) → String → M Store Bool
  agent_connected connected id =
      branch (connected id)
        (do answer ← ask (is_accessible id) λ t. env.accessible t id; pure (accessible_of answer))
        (pure false)

  -- The power state that pollSingle reads: unknown without a BMC configuration, and for a machine that
  -- is manually powered.
  abbrev bmc_power : Option BmcConfiguration → M Store PowerState
  bmc_power none = pure unknown
  bmc_power (some c) = branch c.manual (pure unknown) (get_power_state c)

  -- The part of pollSingle above its write.
  unfoldable pub observe : (String → Bool) → String → Option BmcConfiguration → M Store Observation
  unfolding get_power_state agent_connected is_manually_powered
  observe connected id bmc = do
    power ← bmc_power bmc
    accessible ← branch (is_off power) (pure false) (agent_connected connected id)
    pure (record {
      power = if is_manually_powered bmc && accessible then on else power;
      agent = accessible;
    })

  -- `writing` is the error of the write.
  unfoldable pub poll_single :
      (String → Bool) → String → Option BmcConfiguration → (writing : Option Failure) → M Store Done
  poll_single connected id bmc writing = do
    o ← observe connected id bmc
    write_status writing id (write_observation o)

  -- The loop of pollAll, over the ids of the listed statuses. A status that is torn down when it was
  -- listed is passed over, and the error of a poll is only logged. `writing` has the errors of the
  -- writes, by id.
  unfoldable pub poll_list :
      (String → Bool)
      → (String → Option BmcConfiguration)
      → (writing : String → Option Failure) → List MachineStatus
      → M Store Done
  poll_list connected bmcs writing [] w = done tt w
  poll_list connected bmcs writing (s ∷ rest) w = poll_list connected bmcs writing rest (
      if is_tearing_down_phase s.phase
      then w
      else final (poll_single connected s.id (bmcs s.id) (writing s.id) w))

  -- pollAll: an error of either list is only logged, and ends the poll.
  unfoldable pub poll_all :
      (String → Bool)
      → Result Failure (String → Option BmcConfiguration)
      → Result Failure (List MachineStatus)
      → (writing : String → Option Failure) → M Store Done
  unfolding poll_list
  poll_all connected (err f) statuses writing = pure tt
  poll_all connected (ok bmcs) (err f) writing = pure tt
  poll_all connected (ok bmcs) (ok statuses) writing = poll_list connected bmcs writing statuses

  -- handleAgentConnectionEvent
  unfoldable pub handle_agent_connection_event :
      String → Bool → (writing : Option Failure) → M Store Done
  handle_agent_connection_event id connected writing =
      write_status writing id λ s. record s { agent_accessible = connected }

  -- Run a poll and drop its error, which is only logged.
  abbrev logging : M Store Done → M Store Done
  logging m w = done tt (final (m w))

  -- handlePXEBootEvent, with the error of its own write and that of the poll's.
  unfoldable pub handle_pxe_boot_event :
      (String → Bool)
      → String
      → Read BmcConfiguration
      → (writing polling : Option Failure) → M Store Done
  handle_pxe_boot_event connected id bmc writing polling = do
    old ← gets (current id)
    write_status writing id λ s. record s { initialized = true }
    branch (is_tearing_down_phase old.phase || old.initialized) (pure tt)
        (do c ← lift bmc; logging (poll_single connected id c polling))
