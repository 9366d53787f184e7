-- ===== src/Controllers/RebootStatus/Tests.antt =====
-- The laws of the reboot status at concrete machines.
use omni_infra_provider_bare.Base.{
  Option, [], any, arith, false, none, refl, some, str_eq, true, ◌≡◌, ◌⊎◌,
}
use omni_infra_provider_bare.Base.Int.{ltb_ℤ, pos}
use omni_infra_provider_bare.Resources.{BmcConfiguration, MachineStatus, PowerOperation, WipeStatus}
use omni_infra_provider_bare.Machine.{
  agent_pxe, is_installed, required_boot_mode, requires_power_on, requires_pxe_boot, requires_wipe,
  talos_pxe,
}
use omni_infra_provider_bare.Effects.{World, final, ok, uefi}
use omni_infra_provider_bare.Samples.{bmc1, calm, disk_first, m1, r0, talking, w1}
use omni_infra_provider_bare.Controllers.Common.{since, time_since_last_power_on}
use omni_infra_provider_bare.Controllers.RebootStatus.{
  Helper, Inputs, State, ensure_finalizer, guarded, last_reboot_id_of, reboot, transform,
}
use omni_infra_provider_bare.Controllers.RebootStatus.Laws.{
  IsManaged, Settled, is_reboot, mode_of, no_reboot_in_cooldown, reboot_safe, run, run-Settled,
}

abbrev hourly : Helper
hourly = record {
  controller_name = "RebootStatusController";
  pxe_boot_mode = uefi;
  boot_options = disk_first;
  min_reboot_interval = pos 1000;
}

-- In agent mode, while Talos should run.
abbrev mismatched : Inputs
mismatched = record {
  machine = m1;
  machine_status = ok (some talking);
  bmc = ok (some bmc1);
  wipe = ok (some w1);
  operation = ok none;
  now = 5000;
  clock = 5000;
}

abbrev start : World State
start = record { res = some r0; trace = [] }

reboot_safe_example :
    (s : MachineStatus) × (c : BmcConfiguration) × (wipe : Option WipeStatus) × (operation : Option
      PowerOperation)
    × IsManaged mismatched s c wipe operation
    × (((requires_power_on mismatched.machine wipe ≡ true)
          × (((mode_of hourly mismatched c wipe ≡ agent_pxe) × (s.agent_accessible ≡ false))
              ⊎ ((mode_of hourly mismatched c wipe ≡ talos_pxe) × (s.agent_accessible ≡ true))))
        ⊎ (str_eq (last_reboot_id_of (some r0)) mismatched.machine.requested_reboot_id ≡ false))
    × (ltb_ℤ
          (time_since_last_power_on mismatched.clock operation (some r0))
          hourly.min_reboot_interval
        ≡ false)
unfolding transform guarded ensure_finalizer reboot required_boot_mode requires_pxe_boot
    requires_power_on is_installed requires_wipe time_since_last_power_on since
reboot_safe_example = reboot_safe calm hourly mismatched (some r0) refl

run-Settled_example :
    Settled mismatched.machine mismatched.now (some r0) (run calm hourly mismatched (some r0))
run-Settled_example = run-Settled calm hourly mismatched (some r0)

no_reboot_in_cooldown_example :
    any is_reboot (final (run calm hourly (record mismatched { clock = 1500 }) (some r0))).trace
    ≡ false
no_reboot_in_cooldown_example =
    no_reboot_in_cooldown calm hourly (record mismatched { clock = 1500 }) r0 1000 1000 refl refl
      (omega arith) (omega arith)
