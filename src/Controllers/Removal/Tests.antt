-- ===== src/Controllers/Removal/Tests.antt =====
-- The laws of the removal at concrete machines.
use omni_infra_provider_bare.Base.{[], none, refl, some, ◌≡◌}
use omni_infra_provider_bare.Base.Int.{pos}
use omni_infra_provider_bare.Effects.{World, done, final, ok, uefi}
use omni_infra_provider_bare.Samples.{bmc1, calm, disk_first, m1, r0, silent, w1}
use omni_infra_provider_bare.Controllers.RebootStatus.{Helper, Inputs, State}
use omni_infra_provider_bare.Controllers.Removal.{finalizer_removal}
use omni_infra_provider_bare.Controllers.Removal.Laws.{removal_completes}

abbrev hourly : Helper
hourly = record {
  controller_name = "RebootStatusController";
  pxe_boot_mode = uefi;
  boot_options = disk_first;
  min_reboot_interval = pos 1000;
}

-- Its agent does not answer.
abbrev gone : Inputs
gone = record {
  machine = m1;
  machine_status = ok (some silent);
  bmc = ok (some bmc1);
  wipe = ok (some w1);
  operation = ok none;
  now = 5000;
  clock = 5000;
}

abbrev start : World State
start = record { res = some r0; trace = [] }

removal_completes_example :
    finalizer_removal calm hourly gone (record { res = none; trace = [] })
    ≡ done tt (final (finalizer_removal calm hourly gone (record { res = none; trace = [] })))
removal_completes_example =
    removal_completes calm hourly gone (some silent) (some bmc1) refl refl (λ t kind. refl)
      (record { res = none; trace = [] })
