-- ===== src/Controllers/InfraMachineStatus.antt =====
-- internal/provider/controllers/infra_machine_status.go: what Omni is told of a machine.
pub mod Laws
mod Tests
use omni_infra_provider_bare.Base.{
  List, Option, String, [], if◌then◌else◌, is_some, none, not, some, starts_with, ◌&&◌, ◌∷◌,
}
use omni_infra_provider_bare.Base.Dict.{erase, insert, lookup}
use omni_infra_provider_bare.Resources.{
  BmcConfiguration, InfraMachine, InfraMachineStatus, Labels, MachineStatus, PowerOperation,
  PowerState, RebootStatus, WipeStatus,
}
use omni_infra_provider_bare.Machine.{is_installed, is_power_off_active, requires_wipe}
use omni_infra_provider_bare.Effects.{Done, M, lift, modify, ◌>>=◌, ◌>>◌}
use omni_infra_provider_bare.Controllers.Common.{Read, validate_infra_machine}

-- What `transform` reads besides the resource that it writes.
pub record Inputs : Type 0 where
  pub machine : InfraMachine
  pub machine_status : Read MachineStatus
  pub reboot_read : Read RebootStatus
  pub wipe : Read WipeStatus
  pub bmc : Read BmcConfiguration
  pub operation : Read PowerOperation

-- The constants of Omni that the code names: the prefix of the system labels, and the four labels that
-- are copied from the machine.
pub record OmniLabels : Type 0 where
  pub system_prefix : String
  pub copied : List String

-- Every label that is not a system label goes.
unfoldable pub clear_labels : String → Labels → Labels
clear_labels prefix [] = []
clear_labels prefix ((k, v) ∷ labels) =
    let rest = clear_labels prefix labels in if starts_with k prefix then (k, v) ∷ rest else rest

unfoldable pub set_labels : Labels → Labels → Labels
set_labels [] labels = labels
set_labels ((k, v) ∷ new) labels = set_labels new (insert k v labels)

-- A label that the machine has is copied, one that it lacks is deleted.
abbrev pub copy_label : Labels → String → Labels → Labels
copy_label source k labels = elim (lookup k source) [
  | some v ↦ insert k v labels
  | none ↦ erase k labels
]

unfoldable pub copy_labels : Labels → List String → Labels → Labels
copy_labels source [] labels = labels
copy_labels source (k ∷ ks) labels = copy_labels source ks (copy_label source k labels)

unfoldable pub new_labels : OmniLabels → Labels → Labels → Labels → Labels
unfolding clear_labels set_labels copy_labels
new_labels omni machine_labels source labels =
    copy_labels source omni.copied
      (set_labels machine_labels (clear_labels omni.system_prefix labels))

-- The power state of Omni's resource has the same three values.
abbrev pub power_of : Option MachineStatus → PowerState → PowerState
power_of none old = old
power_of (some s) old = s.power_state

abbrev pub token_of : Option WipeStatus → String → String
token_of none old = old
token_of (some w) old = w.wiped_node_unique_token

abbrev with_reboot : Option RebootStatus → InfraMachineStatus → InfraMachineStatus
with_reboot none s = s
with_reboot (some r) s = record s {
  last_reboot_id = r.last_reboot_id;
  last_reboot_timestamp = r.last_reboot_timestamp;
}

abbrev pub off_id : InfraMachine → Option PowerOperation → String
off_id m none = ""
off_id m (some op) = if is_power_off_active (some m) (some op) then op.last_power_off_id else ""

module _ (omni : OmniLabels) (machine_labels : Labels) where
  unfoldable pub report :
      InfraMachine
      → Option MachineStatus
      → Option RebootStatus
      → Option WipeStatus
      → Option BmcConfiguration
      → Option PowerOperation
      → InfraMachineStatus
      → InfraMachineStatus
  report m s r w c op old =
      let t = with_reboot r old in
      record t {
        labels = new_labels omni machine_labels m.labels old.labels;
        power_state = power_of s old.power_state;
        installed = is_installed (some m) w;
        ready_to_use = is_some c && not (requires_wipe (some m) w);
        wiped_node_unique_token = token_of w old.wiped_node_unique_token;
        last_power_off_id = off_id m op;
      }

  unfoldable pub transform : Inputs → M InfraMachineStatus Done
  unfolding validate_infra_machine
  transform i = do
    s ← lift i.machine_status
    r ← lift i.reboot_read
    w ← lift i.wipe
    c ← lift i.bmc
    op ← lift i.operation
    validate_infra_machine i.machine
    modify (report i.machine s r w c op)
