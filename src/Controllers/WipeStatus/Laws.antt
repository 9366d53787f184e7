-- ===== src/Controllers/WipeStatus/Laws.antt =====
-- When the disks of a machine are wiped, and what that means for its next boot.
use omni_infra_provider_bare.Base.{Bool, [], any, arith, eq_iff, false, some, true, ◌↔◌, ◌∷◌, ◌≡◌}
use omni_infra_provider_bare.Resources.{InfraMachine, MachineStatus, WipeStatus, accepted}
use omni_infra_provider_bare.Machine.{is_installed, requires_wipe}
use omni_infra_provider_bare.Effects.{
  Call, Done, Env, Error, Outcome, World, done, final, ok, stop, wipe_disks,
}
use omni_infra_provider_bare.Controllers.WipeStatus.{Inputs, transform, wiped}

abbrev pub run : Env → Inputs → WipeStatus → Outcome WipeStatus Done
run env i w = transform env i (record { res = w; trace = [] })

abbrev pub is_wipe : Call → Bool
is_wipe (wipe_disks _) = true
is_wipe _ = false

-- All that a wipe waits for.
pub record IsDue (i : Inputs) (w : WipeStatus) : Type 0 where
  pub accepted : i.machine.acceptance_status ≡ accepted
  pub not_cordoned : i.machine.cordoned ≡ false
  pub status : MachineStatus
  pub read : i.machine_status ≡ ok (some status)
  pub agent : status.agent_accessible ≡ true
  pub due : requires_wipe (some i.machine) (some w) ≡ true

module _ (env : Env) (i : Inputs) (w : WipeStatus) where
  -- The agent is told to wipe the disks exactly when the machine is accepted and not cordoned, its status is read and
  -- says that the agent is accessible, and the machine requires a wipe.
  pub wipe_iff : (any is_wipe (final (run env i w)).trace ≡ true) ↔ IsDue i w
  unfolding transform
  wipe_iff = ground arith

  -- A due wipe that the agent carries out ends the need for it: the machine requires no wipe any more
  -- and does not count as installed, and the status records the ids and the token of the machine.
  pub wipe_settles :
      IsDue i w
      → env.act [] (wipe_disks i.machine.id) ≡ ok tt
      → let w' = (final (run env i w)).res in
        (run env i w
          ≡ done tt (record { res = wiped i.machine w; trace = wipe_disks i.machine.id ∷ [] }))
        × (requires_wipe (some i.machine) (some w') ≡ false)
        × (is_installed (some i.machine) (some w') ≡ false)
        × (w'.wiped_node_unique_token ≡ i.machine.node_unique_token)
  unfolding transform wiped requires_wipe is_installed
  wipe_settles d e = ground (arith, eq_iff i.machine.wipe_id i.machine.wipe_id)

  -- A call that does not end well leaves the wipe status as it was.
  pub failure_keeps_status :
      {e : Error} {w' : World WipeStatus} → run env i w ≡ stop e w' → w'.res ≡ w
  unfolding transform
  failure_keeps_status h = ground arith

-- Once wiped, a machine is not wiped again as long as its wipe id stays, whatever else of it changes.
pub wiped_once :
    (m later : InfraMachine) (w : WipeStatus)
    → later.wipe_id ≡ m.wipe_id
    → requires_wipe (some later) (some (wiped m w)) ≡ false
unfolding requires_wipe wiped
wiped_once m later w h = ground (arith, eq_iff later.wipe_id m.wipe_id)
