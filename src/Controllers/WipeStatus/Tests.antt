-- ===== src/Controllers/WipeStatus/Tests.antt =====
-- The laws of the wipe at a concrete machine.
use omni_infra_provider_bare.Base.{[], any, refl, some, true, ◌↔◌, ◌∷◌, ◌≡◌}
use omni_infra_provider_bare.Resources.{}
use omni_infra_provider_bare.Machine.{is_installed, required_boot_mode, requires_wipe}
use omni_infra_provider_bare.Effects.{final, ok, wipe_disks}
use omni_infra_provider_bare.Samples.{bmc1, calm, disk_first, m1, talking, w0}
use omni_infra_provider_bare.Controllers.WipeStatus.{Inputs, transform, wiped}
use omni_infra_provider_bare.Controllers.WipeStatus.History.{
  Reached, WasWiped, created, new_wipe_status, succeeded, talos_only_wiped,
}
use omni_infra_provider_bare.Controllers.WipeStatus.Laws.{IsDue, is_wipe, run, wipe_iff}

abbrev due : Inputs
due = record { machine = m1; machine_status = ok (some talking) }

is_due : IsDue due w0
unfolding requires_wipe
is_due = record {
  accepted = refl;
  not_cordoned = refl;
  status = talking;
  read = refl;
  agent = refl;
  due = refl;
}

wipe_iff_example : (any is_wipe (final (run calm due w0)).trace ≡ true) ↔ IsDue due w0
wipe_iff_example = wipe_iff calm due w0

after_wipe : Reached (wiped m1 new_wipe_status) ((calm, due) ∷ [])
unfolding transform requires_wipe wiped
after_wipe = succeeded calm due (wipe_disks "m1" ∷ []) created refl

talos_only_wiped_example : WasWiped "w1" ((calm, due) ∷ [])
unfolding required_boot_mode requires_wipe is_installed wiped
talos_only_wiped_example = talos_only_wiped after_wipe m1 (some bmc1) disk_first refl
