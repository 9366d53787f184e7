-- ===== src/Controllers/PowerOperation.antt =====
-- internal/provider/controllers/power_operation.go: power a machine on or off as it is needed.
pub mod Laws
mod Tests
use omni_infra_provider_bare.Base.{
  Bool, Option, false, if◌then◌else◌, not, some, str_eq, true, ℕ, ◌&&◌, ◌||◌,
}
use omni_infra_provider_bare.Base.Int.{ltb_ℤ, ℤ}
use omni_infra_provider_bare.Resources.{
  BmcConfiguration, InfraMachine, PowerOperation, PreferredPowerState, RebootStatus, WipeStatus,
  off, on, prefer_off, prefer_on,
}
use omni_infra_provider_bare.Machine.{
  BootOptions, is_power_off_active, required_boot_mode, requires_power_on, requires_pxe_boot,
}
use omni_infra_provider_bare.Effects.{
  Capabilities, Done, Env, M, PxeMode, act, branch, call, gets, is_powered_on, lift, modify,
  power_off, power_on, pure, raise_if, requeue, set_pxe_boot_once, skip, when, with_client, ◌>>=◌,
  ◌>>◌,
}
use omni_infra_provider_bare.Controllers.Common.{
  Read, cooldown_left, require, time_since_last_power_on, validate_infra_machine,
}

-- type powerOperationControllerHelper; the BMC client factory is the environment, and `nowFunc` is a time
-- of `Inputs`.
pub record Helper : Type 0 where
  pub pxe_boot_mode : PxeMode
  pub boot_options : BootOptions
  pub min_reboot_interval : ℤ

-- What `transform` reads besides the resource that it writes, and the two clocks: `now` is the answer of
-- `nowFunc`, and `clock` the time of time.Since.
pub record Inputs : Type 0 where
  pub machine : InfraMachine
  pub bmc : Read BmcConfiguration
  pub wipe : Read WipeStatus
  pub reboot : Read RebootStatus
  pub now : ℕ
  pub clock : ℕ

unfoldable pub is_manually_powered : Capabilities → Bool
is_manually_powered caps = not (caps.power_control && caps.power_state)

-- A power-off request is acknowledged once, with the wipe id of that moment.
unfoldable pub acknowledge : InfraMachine → PowerOperation → PowerOperation
acknowledge m op =
    if not (str_eq m.power_off_request_id "")
      && not (str_eq m.power_off_request_id op.last_power_off_id)
    then record op { last_power_off_id = m.power_off_request_id; wipe_id_at_power_off = m.wipe_id }
    else op

abbrev prefers_on : PreferredPowerState → Bool
prefers_on prefer_on = true
prefers_on prefer_off = false

module _ (env : Env) (helper : Helper) (i : Inputs) where
  -- The first case of the switch.
  power_on_machine : BmcConfiguration → Option WipeStatus → M PowerOperation Done
  power_on_machine bmc wipe = do
    when
        (requires_pxe_boot
          (required_boot_mode (some i.machine) (some bmc) wipe helper.boot_options))
        (act env (set_pxe_boot_once helper.pxe_boot_mode))
    act env power_on
    modify λ op. record op { last_power_operation = on; last_power_on_timestamp = some i.now }

  -- The second case of the switch, with its cooldown.
  power_off_machine : Option RebootStatus → M PowerOperation Done
  power_off_machine reboot = do
    elapsed ← gets λ op. time_since_last_power_on i.clock (some op) reboot
    raise_if (ltb_ℤ elapsed helper.min_reboot_interval)
        (requeue (cooldown_left helper.min_reboot_interval elapsed))
    act env power_off
    modify λ op. record op { last_power_operation = off }

  -- The switch.
  switch_power :
      BmcConfiguration
      → Option WipeStatus
      → Option RebootStatus
      → (requires_on off_active is_on : Bool) → M PowerOperation Done
  unfolding power_on_machine power_off_machine
  switch_power bmc wipe reboot requires_on off_active is_on =
      branch
        (not is_on && not off_active && (requires_on || prefers_on i.machine.preferred_power_state))
        (power_on_machine bmc wipe)
        (branch (is_on && (not requires_on && not (prefers_on i.machine.preferred_power_state)))
          (power_off_machine reboot) (pure tt))

  -- What is done with the client.
  drive :
      BmcConfiguration
      → Option WipeStatus
      → Option RebootStatus
      → Bool
      → Capabilities
      → M PowerOperation Done
  unfolding switch_power
  drive bmc wipe reboot off_active caps = do
    raise_if (is_manually_powered caps) (skip "machine power management is manual")
    is_on ← call is_powered_on env.power
    switch_power bmc wipe reboot (requires_power_on i.machine wipe) off_active is_on

  unfoldable pub transform : M PowerOperation Done
  unfolding drive is_manually_powered validate_infra_machine with_client
  transform = do
    bmc ← lift i.bmc
    wipe ← lift i.wipe
    reboot ← lift i.reboot
    validate_infra_machine i.machine
    config ← require bmc "machine has no power management configuration"
    modify (acknowledge i.machine)
    off_active ← gets λ op. is_power_off_active (some i.machine) (some op)
    with_client env config (drive config wipe reboot off_active)
