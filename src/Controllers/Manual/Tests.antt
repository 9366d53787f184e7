-- ===== src/Controllers/Manual/Tests.antt =====
-- A machine that is powered by hand.
use omni_infra_provider_bare.Base.{[], any, false, none, refl, some, true, ◌≡◌}
use omni_infra_provider_bare.Base.Int.{pos}
use omni_infra_provider_bare.Effects.{Trace, err, final, is_power_command, ok, uefi}
use omni_infra_provider_bare.Samples.{broken, by_hand, disk_first, lit, m1, op0, talking, w1}
use omni_infra_provider_bare.Bmc.{Endpoints, FactoryOptions}
use omni_infra_provider_bare.Controllers.PowerOperation.{Helper, Inputs, transform}
use omni_infra_provider_bare.Controllers.RebootStatus
use omni_infra_provider_bare.Controllers.RebootStatus.Laws
use omni_infra_provider_bare.Controllers.RebootStatus.NoBmc.{is_bmc_command}
use omni_infra_provider_bare.Controllers.Removal.{finalizer_removal}
use omni_infra_provider_bare.Controllers.Manual.{manual_never_driven, with_factory}

abbrev redfish : FactoryOptions
redfish = record { use_always = true; use_when_available = false }

abbrev dead : Endpoints
dead = record {
  redfish_is_powered_on = λ i. err broken;
  ipmi_create = λ i. ok tt;
  ipmi_connect = λ i. err broken;
}

abbrev hourly : Helper
hourly = record { pxe_boot_mode = uefi; boot_options = disk_first; min_reboot_interval = pos 1000 }

abbrev needed : Inputs
needed = record {
  machine = m1;
  bmc = ok (some by_hand);
  wipe = ok (some w1);
  reboot = ok none;
  now = 5000;
  clock = 5000;
}

abbrev rebooting : RebootStatus.Helper
rebooting = record {
  controller_name = "RebootStatusController";
  pxe_boot_mode = uefi;
  boot_options = disk_first;
  min_reboot_interval = pos 1000;
}

abbrev wrong_mode : RebootStatus.Inputs
wrong_mode = record {
  machine = m1;
  machine_status = ok (some talking);
  bmc = ok (some by_hand);
  wipe = ok (some w1);
  operation = ok none;
  now = 5000;
  clock = 5000;
}

manual_never_driven_example :
    let real = with_factory redfish dead (λ (t : Trace). []) lit in
    let w = final (transform real hourly needed (record { res = op0; trace = [] })) in
    (any is_power_command w.trace ≡ false)
    × (w.res.last_power_operation ≡ op0.last_power_operation)
    × (w.res.last_power_on_timestamp ≡ op0.last_power_on_timestamp)
    × (any is_bmc_command (final (RebootStatus.Laws.run real rebooting wrong_mode none)).trace
        ≡ false)
    × (any is_power_command
          (final
            (finalizer_removal real rebooting wrong_mode (record { res = none; trace = [] }))).trace
        ≡ false)
manual_never_driven_example =
    manual_never_driven redfish dead (λ (t : Trace). []) lit hourly needed op0 rebooting wrong_mode
      none by_hand refl refl refl
