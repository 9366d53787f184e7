-- ===== src/Controllers/WipeStatus.antt =====
-- internal/provider/controllers/wipe_status.go: wipe a machine over its agent when it needs that.
pub mod Laws
mod Tests
pub mod History
use omni_infra_provider_bare.Base.{not, some, true}
use omni_infra_provider_bare.Resources.{InfraMachine, MachineStatus, WipeStatus}
use omni_infra_provider_bare.Machine.{requires_wipe}
use omni_infra_provider_bare.Effects.{
  Done, Env, M, ask, gets, lift, modify, raise_if, skip, wipe_disks, wrap, ◌>>=◌, ◌>>◌,
}
use omni_infra_provider_bare.Controllers.Common.{Read, require, validate_infra_machine}

-- What `transform` reads besides the resource that it writes.
pub record Inputs : Type 0 where
  pub machine : InfraMachine
  pub machine_status : Read MachineStatus

-- What a wipe records.
unfoldable pub wiped : InfraMachine → WipeStatus → WipeStatus
wiped m w = record w {
  initial_wipe_done = true;
  last_wipe_id = m.wipe_id;
  last_wipe_install_event_id = m.install_event_id;
  wiped_node_unique_token = m.node_unique_token;
}

unfoldable pub transform : Env → Inputs → M WipeStatus Done
unfolding validate_infra_machine
transform env i = do
  status ← lift i.machine_status
  validate_infra_machine i.machine
  s ← require status "machine status not found"
  due ← gets λ w. requires_wipe (some i.machine) (some w)
  raise_if (not due) (skip "machine does not require wipe")
  raise_if (not s.agent_accessible) (skip "agent is not accessible")
  answer ← ask (wipe_disks i.machine.id) λ t. env.act t (wipe_disks i.machine.id)
  wrap "failed to wipe disks" answer
  modify (wiped i.machine)
