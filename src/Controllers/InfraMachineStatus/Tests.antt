-- ===== src/Controllers/InfraMachineStatus/Tests.antt =====
-- What Omni is told of a concrete machine.
use omni_infra_provider_bare.Base.{[], false, none, ◌∷◌}
use omni_infra_provider_bare.Resources.{InfraMachineStatus, Labels, unknown}
use omni_infra_provider_bare.Controllers.InfraMachineStatus.{OmniLabels}

abbrev omni : OmniLabels
omni = record { system_prefix = "omni.sidero.dev/"; copied = "rack" ∷ "zone" ∷ [] }

abbrev provider_labels : Labels
provider_labels = ("site", "a") ∷ []

abbrev old_labels : Labels
old_labels = ("omni.sidero.dev/id", "m1") ∷ ("rack", "6") ∷ []

abbrev old_status : InfraMachineStatus
old_status = record {
  labels = old_labels;
  power_state = unknown;
  last_reboot_id = "";
  last_reboot_timestamp = none;
  installed = false;
  ready_to_use = false;
  wiped_node_unique_token = "";
  last_power_off_id = "";
}
