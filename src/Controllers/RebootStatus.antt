-- ===== src/Controllers/RebootStatus.antt =====
-- internal/provider/controllers/reboot_status.go: reboot a machine that runs in the wrong mode, or
-- that the user wants rebooted.
pub mod Laws
pub mod Due
pub mod NoBmc
mod Tests
use mathlib.Core.Option
use omni_infra_provider_bare.Base.{
  Bool, List, Option, String, any, false, none, not, some, str_eq, true, ℕ, ◌&&◌, ◌<>◌, ◌||◌,
}
use omni_infra_provider_bare.Base.Int.{ltb_ℤ, ℤ}
use omni_infra_provider_bare.Resources.{
  BmcConfiguration, InfraMachine, MachineStatus, PowerOperation, RebootStatus, WipeStatus,
}
use omni_infra_provider_bare.Machine.{
  BootMode, BootOptions, agent_pxe, required_boot_mode, requires_power_on, requires_pxe_boot,
  talos_pxe,
}
use omni_infra_provider_bare.Effects.{
  Capabilities, Done, Env, M, PxeMode, act, add_finalizer, agent_reboot, ask, branch, done, gets,
  lift, modify, raise, raise_if, reboot_machine, requeue, set_pxe_boot_once, skip, when,
  with_client, wrap, ◌>>=◌, ◌>>◌,
}
use omni_infra_provider_bare.Controllers.Common.{
  Read, cooldown_left, require, time_since_last_power_on, validate_infra_machine,
}

-- type rebootStatusControllerHelper, without the hook that only tests set
pub record Helper : Type 0 where
  pub controller_name : String
  pub pxe_boot_mode : PxeMode
  pub boot_options : BootOptions
  pub min_reboot_interval : ℤ

-- What `transform` reads besides its resources; `clock` is the time of time.Since, `now` that of
-- timestamppb.Now.
pub record Inputs : Type 0 where
  pub machine : InfraMachine
  pub machine_status : Read MachineStatus
  pub bmc : Read BmcConfiguration
  pub wipe : Read WipeStatus
  pub operation : Read PowerOperation
  pub now : ℕ
  pub clock : ℕ

-- A reboot status that is not there, as on removal, is `none`.
abbrev pub State : Type 0
State = Option RebootStatus

-- `Finalizers().Has(name)`
abbrev pub has_finalizer : String → List String → Bool
has_finalizer name = any (str_eq name)

abbrev is_agent_pxe : BootMode → Bool
is_agent_pxe agent_pxe = true
is_agent_pxe _ = false

abbrev is_talos_pxe : BootMode → Bool
is_talos_pxe talos_pxe = true
is_talos_pxe _ = false

-- `modeMismatch`: the machine should run its agent and does not answer, or the other way round.
abbrev pub mode_mismatch : BootMode → Bool → Bool
mode_mismatch mode accessible =
    (is_agent_pxe mode && not accessible) || (is_talos_pxe mode && accessible)

abbrev pub last_reboot_id_of : State → String
last_reboot_id_of none = ""
last_reboot_id_of (some s) = s.last_reboot_id

-- `if rebootStatus != nil { … }`
abbrev pub record_reboot : InfraMachine → ℕ → State → State
record_reboot m now none = none
record_reboot m now (some s) =
    some (record s { last_reboot_id = m.requested_reboot_id; last_reboot_timestamp = some now })

module _ (env : Env) (helper : Helper) where
  -- The part of rebootOverAnyChannel that has the client.
  reboot_with : String → Bool → Bool → Capabilities → M State Done
  reboot_with id requires_pxe accessible caps =
      branch caps.can_reboot
        (when (requires_pxe && caps.boot_device_control)
            (act env (set_pxe_boot_once helper.pxe_boot_mode))
          >> act env reboot_machine)
        (branch accessible (act env (agent_reboot id))
          (raise (skip "machine requires a manual reboot")))

  unfoldable pub reboot_over_any_channel : String → BmcConfiguration → Bool → Bool → M State Done
  unfolding reboot_with with_client
  reboot_over_any_channel id bmc requires_pxe accessible =
      with_client env bmc (reboot_with id requires_pxe accessible)

  unfoldable pub reboot :
      InfraMachine
      → BmcConfiguration
      → Option PowerOperation
      → Bool
      → Bool
      → (now clock : ℕ) → M State Done
  unfolding reboot_over_any_channel
  reboot m bmc operation requires_pxe accessible now clock = do
    elapsed ← gets λ s. time_since_last_power_on clock operation s
    raise_if (ltb_ℤ elapsed helper.min_reboot_interval)
        (requeue (cooldown_left helper.min_reboot_interval elapsed))
    reboot_over_any_channel m.id bmc requires_pxe accessible
    modify (record_reboot m now)

  -- A missing finalizer is added.
  ensure_finalizer : String → Option (List String) → M State Done
  ensure_finalizer kind none w = done tt w
  ensure_finalizer kind (some names) w =
      when (not (has_finalizer helper.controller_name names))
        (ask (add_finalizer kind) (λ t. env.act t (add_finalizer kind))
          >>= wrap ("failed to add finalizer to " <> kind))
        w

  -- What `transform` does once all is read.
  decide :
      Inputs
      → MachineStatus
      → BmcConfiguration
      → Option WipeStatus
      → Option PowerOperation
      → M State Done
  decide i s bmc wipe operation =
      let mode = required_boot_mode (some i.machine) (some bmc) wipe helper.boot_options in
      do
        last_id ← gets last_reboot_id_of
        when
            (requires_power_on i.machine wipe && mode_mismatch mode s.agent_accessible
              || not (str_eq last_id i.machine.requested_reboot_id))
            (reboot i.machine bmc operation (requires_pxe_boot mode) s.agent_accessible i.now
              i.clock)

  -- The part of `transform` below the finalizers.
  guarded : Inputs → Option MachineStatus → Option BmcConfiguration → M State Done
  unfolding decide validate_infra_machine
  guarded i status bmc = do
    wipe ← lift i.wipe
    operation ← lift i.operation
    validate_infra_machine i.machine
    config ← require bmc "bmc configuration not found"
    s ← require status "machine status not found"
    decide i s config wipe operation

  pub transform : Inputs → M State Done
  transform i = do
    status ← lift i.machine_status
    ensure_finalizer "machine status" (Option.map (λ s. s.finalizers) status)
    bmc ← lift i.bmc
    ensure_finalizer "bmc configuration" (Option.map (λ c. c.finalizers) bmc)
    guarded i status bmc
