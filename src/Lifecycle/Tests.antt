-- ===== src/Lifecycle/Tests.antt =====
-- A machine of a cluster: from Talos to the agent, and from the wipe to Talos.
use omni_infra_provider_bare.Base.{
  String, [], arith, eq_iff, false, none, refl, some, ◌∷◌, ◌≡◌, ◌≢◌,
}
use omni_infra_provider_bare.Base.Int.{pos}
use omni_infra_provider_bare.Resources.{BmcConfiguration, MachineStatus, WipeStatus}
use omni_infra_provider_bare.Machine.{requires_wipe}
use omni_infra_provider_bare.Effects.{err, ok, uefi}
use omni_infra_provider_bare.Samples.{bmc1, broken, calm, disk_first, full, m1, r0, talking, w0}
use omni_infra_provider_bare.Ipxe.{Handler, Services, http_404}
use omni_infra_provider_bare.Controllers.Common.{since, time_since_last_power_on}
use omni_infra_provider_bare.Controllers.RebootStatus.{Helper, Inputs}
use omni_infra_provider_bare.Controllers.RebootStatus.Laws.{run}
use omni_infra_provider_bare.Controllers.RebootStatus.Due.{IsReady, Obeys}
use omni_infra_provider_bare.Controllers.WipeStatus as W
use omni_infra_provider_bare.Controllers.WipeStatus.Laws as Wipe
use omni_infra_provider_bare.Lifecycle.{
  IsGiven, agent_before_wipe, chained, reads, rebooted, talos_after_wipe,
}
use omni_infra_provider_bare.Ipxe.Decision.{make_boot_decision}

abbrev name : String
name = "RebootStatusController"

abbrev hourly : Helper
hourly = record {
  controller_name = name;
  pxe_boot_mode = uefi;
  boot_options = disk_first;
  min_reboot_interval = pos 1000;
}

abbrev held_status : MachineStatus
held_status = record talking { finalizers = name ∷ [] }

abbrev held_bmc : BmcConfiguration
held_bmc = record bmc1 { finalizers = name ∷ [] }

abbrev due : W.Inputs
due = record { machine = m1; machine_status = ok (some held_status) }

is_due : Wipe.IsDue due w0
unfolding requires_wipe
is_due = record {
  accepted = refl;
  not_cordoned = refl;
  status = held_status;
  read = refl;
  agent = refl;
  due = refl;
}

abbrev after : WipeStatus
after = W.wiped m1 w0

abbrev mismatched : Inputs
mismatched = record {
  machine = m1;
  machine_status = ok (some held_status);
  bmc = ok (some held_bmc);
  wipe = ok (some after);
  operation = ok none;
  now = 5000;
  clock = 5000;
}

abbrev left_silent : MachineStatus
left_silent = record held_status { agent_accessible = false }

abbrev in_talos : Inputs
in_talos = record mismatched { machine_status = ok (some left_silent); wipe = ok (some w0) }

is_given : IsGiven m1
is_given = record {
  accepted = refl;
  not_cordoned = refl;
  alive = refl;
  allocated = ground (arith, eq_iff "1.9.0" "");
}

abbrev handler : Handler
handler = record {
  boot_from_disk_method = http_404;
  default_kernel_args = [];
  agent_kernel_args = [];
  host_port = "10.0.0.1:50042";
  boot = disk_first;
  use_local_boot_assets = false;
}

abbrev services : Services
services = record { schematic_ipxe_url = λ x. ok "http://factory/"; read_asset = λ n. err broken }

obeys : Obeys calm hourly "m1" held_bmc full
obeys = record {
  connects = refl;
  points = refl;
  reboots = refl;
  reboots_pointed = refl;
  agent_reboots = refl;
}

ready :
    (i : Inputs) (s : MachineStatus) (w : WipeStatus)
    → i ≡ record mismatched { machine_status = ok (some s); wipe = ok (some w) }
    → s.finalizers ≡ name ∷ []
    → IsReady hourly i r0 s held_bmc (some w)
unfolding time_since_last_power_on since
ready i s w e held = rw (e) (record {
  operation = none;
  managed = record {
    accepted = refl;
    not_cordoned = refl;
    status = refl;
    bmc = refl;
    wipe_read = refl;
    operation_read = refl;
  };
  status_held = rw held refl;
  bmc_held = refl;
  cooled = refl;
})

has_id : m1.id ≢ ""
has_id = ground (arith, eq_iff "m1" "")

talos_after_wipe_example :
    (run calm hourly mismatched (some r0) ≡ rebooted hourly mismatched r0 full)
    × (make_boot_decision handler services "arm64" "m1" (reads m1 held_bmc after)
        ≡ ok (chained "http://factory/"))
unfolding W.transform requires_wipe W.wiped
talos_after_wipe_example =
    talos_after_wipe calm hourly mismatched r0 held_status held_bmc full handler services "arm64"
      "http://factory/" calm due w0 is_due refl refl is_given
      (ready mismatched held_status after refl refl) refl obeys refl has_id refl

agent_before_wipe_example :
    (run calm hourly in_talos (some r0) ≡ rebooted hourly in_talos r0 full)
    × (make_boot_decision handler services "arm64" "m1" (reads m1 held_bmc w0)
        ≡ ok (chained "http://factory/"))
unfolding requires_wipe
agent_before_wipe_example =
    agent_before_wipe calm hourly in_talos r0 left_silent held_bmc full handler services "arm64"
      "http://factory/" w0 refl (ready in_talos left_silent w0 refl refl) refl refl obeys refl refl
      has_id refl
