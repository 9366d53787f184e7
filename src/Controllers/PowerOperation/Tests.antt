-- ===== src/Controllers/PowerOperation/Tests.antt =====
-- The laws of the power operation at concrete machines.
use omni_infra_provider_bare.Base.{Option, [], any, false, none, refl, some, true, ◌∷◌, ◌≡◌, ◌⊎◌}
use omni_infra_provider_bare.Base.Int.{ltb_ℤ, pos}
use omni_infra_provider_bare.Resources.{
  BmcConfiguration, InfraMachine, RebootStatus, WipeStatus, off, on, prefer_off, prefer_on,
}
use omni_infra_provider_bare.Machine.{
  is_installed, is_power_off_active, required_boot_mode, requires_power_on, requires_pxe_boot,
  requires_wipe,
}
use omni_infra_provider_bare.Effects.{
  close_client, done, final, get_client, is_power_off, is_power_on, ok, power_on, set_pxe_boot_once,
  uefi,
}
use omni_infra_provider_bare.Samples.{bmc1, calm, disk_first, idle, lit, m1, op0, w1}
use omni_infra_provider_bare.Controllers.PowerOperation.{Helper, Inputs, acknowledge, transform}
use omni_infra_provider_bare.Controllers.PowerOperation.Laws.{
  IsManaged, asked, is_off_active, pointed, power_off_safe, power_on_safe, record_matches_trace,
  run,
}
use omni_infra_provider_bare.Controllers.Common.{since, time_since_last_power_on}

abbrev hourly : Helper
hourly = record { pxe_boot_mode = uefi; boot_options = disk_first; min_reboot_interval = pos 1000 }

-- Required to be on.
abbrev needed : Inputs
needed = record {
  machine = m1;
  bmc = ok (some bmc1);
  wipe = ok (some w1);
  reboot = ok none;
  now = 5000;
  clock = 5000;
}

abbrev unneeded : Inputs
unneeded = record needed { machine = idle }

-- A request to power off.
abbrev asking : InfraMachine
asking = record m1 { power_off_request_id = "p1" }

managed : IsManaged needed bmc1 (some w1) none
managed = record {
  accepted = refl;
  not_cordoned = refl;
  bmc = refl;
  wipe_read = refl;
  reboot_read = refl;
}

power_off_safe_example :
    (c : BmcConfiguration) × (wipe : Option WipeStatus) × (reboot : Option RebootStatus) × IsManaged
      unneeded c wipe reboot
    × (requires_power_on unneeded.machine wipe ≡ false)
    × (unneeded.machine.preferred_power_state ≡ prefer_off)
    × (lit.power (get_client ∷ []) ≡ ok true)
    × (ltb_ℤ
          (time_since_last_power_on unneeded.clock (some (acknowledge unneeded.machine op0)) reboot)
          hourly.min_reboot_interval
        ≡ false)
unfolding transform acknowledge is_power_off_active required_boot_mode requires_pxe_boot
    requires_power_on is_installed requires_wipe time_since_last_power_on since
power_off_safe_example = power_off_safe lit hourly unneeded op0 refl

power_on_safe_example :
    (c : BmcConfiguration) × (wipe : Option WipeStatus) × (reboot : Option RebootStatus) × IsManaged
      needed c wipe reboot
    × ((requires_power_on needed.machine wipe ≡ true)
        ⊎ (needed.machine.preferred_power_state ≡ prefer_on))
    × (is_off_active needed op0 ≡ false)
    × (calm.power (get_client ∷ []) ≡ ok false)
    × ((final (run calm hourly needed op0)).trace
        ≡ close_client ∷ power_on ∷ pointed hourly needed c wipe)
    × ((requires_pxe_boot
            (required_boot_mode (some needed.machine) (some c) wipe hourly.boot_options)
          ≡ false)
        ⊎ (calm.act asked (set_pxe_boot_once hourly.pxe_boot_mode) ≡ ok tt))
unfolding transform acknowledge is_power_off_active required_boot_mode requires_pxe_boot
    requires_power_on is_installed requires_wipe time_since_last_power_on since
power_on_safe_example = power_on_safe calm hourly needed op0 refl

record_matches_trace_example :
    let w = final (run calm hourly needed op0) in
    ((w.res.last_power_operation ≡ op0.last_power_operation)
      × (w.res.last_power_on_timestamp ≡ op0.last_power_on_timestamp))
    ⊎ ((run calm hourly needed op0 ≡ done tt w)
        × (any is_power_on w.trace ≡ true)
        × (w.res.last_power_operation ≡ on)
        × (w.res.last_power_on_timestamp ≡ some needed.now))
    ⊎ ((run calm hourly needed op0 ≡ done tt w)
        × (any is_power_off w.trace ≡ true)
        × (w.res.last_power_operation ≡ off)
        × (w.res.last_power_on_timestamp ≡ op0.last_power_on_timestamp))
record_matches_trace_example = record_matches_trace calm hourly needed op0
