-- ===== src/Controllers/PowerOperation/Laws.antt =====
-- When the power operation controller powers a machine on or off.
use omni_infra_provider_bare.Base.{
  Bool, Option, [], any, arith, eq_iff, false, if◌then◌else◌, some, true, ◌&&◌, ◌∷◌, ◌≡◌, ◌≢◌, ◌⊎◌,
}
use omni_infra_provider_bare.Base.Int.{ltb_ℤ}
use omni_infra_provider_bare.Resources.{
  BmcConfiguration, InfraMachine, PowerOperation, RebootStatus, WipeStatus, accepted, off, on,
  prefer_off, prefer_on,
}
use omni_infra_provider_bare.Machine.{
  is_power_off_active, required_boot_mode, requires_power_on, requires_pxe_boot,
}
use omni_infra_provider_bare.Effects.{
  Capabilities, Done, Env, Outcome, Trace, close_client, done, final, get_client, is_power_off,
  is_power_on, is_powered_on, ok, power_on, set_pxe_boot_once, skip, stop,
}
use omni_infra_provider_bare.Controllers.Common.{time_since_last_power_on}
use omni_infra_provider_bare.Controllers.PowerOperation.{Helper, Inputs, acknowledge, transform}

-- A call of `transform` on a resource, with the calls that it makes.
abbrev pub run : Env → Helper → Inputs → PowerOperation → Outcome PowerOperation Done
run env helper i op = transform env helper i (record { res = op; trace = [] })

-- What the controller has read when it acts on a machine.
pub record IsManaged (i : Inputs) (c : BmcConfiguration) (wipe : Option WipeStatus)
    (reboot : Option RebootStatus) : Type 0 where
  pub accepted : i.machine.acceptance_status ≡ accepted
  pub not_cordoned : i.machine.cordoned ≡ false
  pub bmc : i.bmc ≡ ok (some c)
  pub wipe_read : i.wipe ≡ ok wipe
  pub reboot_read : i.reboot ≡ ok reboot

-- The calls up to the power state, the latest first.
abbrev pub asked : Trace
asked = is_powered_on ∷ get_client ∷ []

-- The calls after the boot device was set, if it has to be.
abbrev pub pointed : Helper → Inputs → BmcConfiguration → Option WipeStatus → Trace
pointed helper i c wipe =
    if requires_pxe_boot (required_boot_mode (some i.machine) (some c) wipe helper.boot_options)
    then set_pxe_boot_once helper.pxe_boot_mode ∷ asked
    else asked

acknowledge_keeps :
    (m : InfraMachine) (op : PowerOperation)
    → ((acknowledge m op).last_power_operation ≡ op.last_power_operation)
      × ((acknowledge m op).last_power_on_timestamp ≡ op.last_power_on_timestamp)
unfolding acknowledge
acknowledge_keeps m op = ground arith

-- The power-off request is being honored once `transform` has acknowledged it.
abbrev pub is_off_active : Inputs → PowerOperation → Bool
is_off_active i op = is_power_off_active (some i.machine) (some (acknowledge i.machine op))

module _ (env : Env) (helper : Helper) (i : Inputs) (op : PowerOperation) where
  -- A power-off is issued only for a machine that is accepted and not cordoned, has a BMC
  -- configuration, is not required to be on, is preferred to be off, was reported to be on, and whose
  -- last power-on or reboot is at least the minimum reboot interval ago.
  pub power_off_safe :
      any is_power_off (final (run env helper i op)).trace ≡ true
      → (c : BmcConfiguration) × (wipe : Option WipeStatus) × (reboot : Option RebootStatus)
        × IsManaged i c wipe reboot
        × (requires_power_on i.machine wipe ≡ false)
        × (i.machine.preferred_power_state ≡ prefer_off)
        × (env.power (get_client ∷ []) ≡ ok true)
        × (ltb_ℤ
              (time_since_last_power_on i.clock (some (acknowledge i.machine op)) reboot)
              helper.min_reboot_interval
            ≡ false)
  unfolding transform
  power_off_safe h = ground arith

  -- A power-on is issued only for a machine that is accepted and not cordoned, has a BMC
  -- configuration, is required or preferred to be on, was reported to be off, and has no power-off
  -- request that is being honored. If its boot mode needs the network, the boot device was pointed at
  -- it just before, and without an error. The client is closed at the end.
  pub power_on_safe :
      any is_power_on (final (run env helper i op)).trace ≡ true
      → (c : BmcConfiguration) × (wipe : Option WipeStatus) × (reboot : Option RebootStatus)
        × IsManaged i c wipe reboot
        × ((requires_power_on i.machine wipe ≡ true)
            ⊎ (i.machine.preferred_power_state ≡ prefer_on))
        × (is_off_active i op ≡ false)
        × (env.power (get_client ∷ []) ≡ ok false)
        × ((final (run env helper i op)).trace ≡ close_client ∷ power_on ∷ pointed helper i c wipe)
        × ((requires_pxe_boot
                (required_boot_mode (some i.machine) (some c) wipe helper.boot_options)
              ≡ false)
            ⊎ (env.act asked (set_pxe_boot_once helper.pxe_boot_mode) ≡ ok tt))
  unfolding transform
  power_on_safe h = ground arith

  -- A machine whose BMC client lacks the power state or the power control is sent no command: the
  -- reconciliation is skipped with the client closed, and only the request is acknowledged.
  pub manual_left_alone :
      {c : BmcConfiguration} {wipe : Option WipeStatus} {reboot : Option RebootStatus}
      {caps : Capabilities}
      → IsManaged i c wipe reboot
      → env.client [] c ≡ ok caps
      → (caps.power_control && caps.power_state) ≡ false
      → run env helper i op
        ≡ stop
            (skip "machine power management is manual")
            (record { res = acknowledge i.machine op; trace = close_client ∷ get_client ∷ [] })
  unfolding transform
  manual_left_alone m e h = ground arith

  -- The recorded operation is right: `transform` changes the last power operation or its time only by
  -- ending without an error after a power-on, which records the operation and the time, or after a
  -- power-off, which records the operation and keeps the time.
  pub record_matches_trace :
      let w = final (run env helper i op) in
      ((w.res.last_power_operation ≡ op.last_power_operation)
        × (w.res.last_power_on_timestamp ≡ op.last_power_on_timestamp))
      ⊎ ((run env helper i op ≡ done tt w)
          × (any is_power_on w.trace ≡ true)
          × (w.res.last_power_operation ≡ on)
          × (w.res.last_power_on_timestamp ≡ some i.now))
      ⊎ ((run env helper i op ≡ done tt w)
          × (any is_power_off w.trace ≡ true)
          × (w.res.last_power_operation ≡ off)
          × (w.res.last_power_on_timestamp ≡ op.last_power_on_timestamp))
  unfolding transform
  record_matches_trace = ground (arith, acknowledge_keeps i.machine op)

-- A power-off request that is not empty and new is honored from its acknowledgement on, and is no
-- longer honored for a machine whose wipe id has changed since, until a new request comes.
pub request_life :
    (m later : InfraMachine) (op : PowerOperation)
    → m.power_off_request_id ≢ ""
    → m.power_off_request_id ≢ op.last_power_off_id
    → later.wipe_id ≢ m.wipe_id
    → later.power_off_request_id ≡ m.power_off_request_id
    → let op' = acknowledge m op in
      (is_power_off_active (some m) (some op') ≡ true)
      × (acknowledge m op' ≡ op')
      × (acknowledge later op' ≡ op')
      × (is_power_off_active (some later) (some (acknowledge later op')) ≡ false)
unfolding acknowledge is_power_off_active
request_life m later op a b c d = ground (
  arith,
  eq_iff m.power_off_request_id "",
  eq_iff m.power_off_request_id op.last_power_off_id,
  eq_iff m.power_off_request_id m.power_off_request_id,
  eq_iff m.wipe_id m.wipe_id,
  eq_iff m.wipe_id later.wipe_id,
  eq_iff later.power_off_request_id m.power_off_request_id,
)
