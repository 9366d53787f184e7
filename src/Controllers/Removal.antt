-- ===== src/Controllers/Removal.antt =====
-- The removal of a machine: finalizerRemoval and attemptRebootOnRemoval of
-- internal/provider/controllers/reboot_status.go.
pub mod Laws
mod Tests
use mathlib.Core.Option
use omni_infra_provider_bare.Base.{List, Option, String, false, none, not, some, true, ◌<>◌}
use omni_infra_provider_bare.Resources.{BmcConfiguration, MachineStatus}
use omni_infra_provider_bare.Effects.{
  Done, Env, M, ask, done, final, lift, pure, remove_finalizer, when, wrap, ◌>>=◌, ◌>>◌,
}
use omni_infra_provider_bare.Controllers.RebootStatus.{Helper, Inputs, State, has_finalizer, reboot}

-- Run a handler and drop its error, which is only logged.
abbrev best_effort : {R : Type 0} → M R Done → M R Done
best_effort m w = done tt (final (m w))

module _ (env : Env) (helper : Helper) (i : Inputs) where
  -- The reboot has no power operation and no reboot status, so no cooldown; an accessible agent means
  -- that the machine is in agent mode already.
  unfoldable pub attempt_reboot : Option MachineStatus → Option BmcConfiguration → M State Done
  unfolding reboot
  attempt_reboot (some s) (some c) =
      when (not s.agent_accessible)
        (best_effort (reboot env helper i.machine c none true false i.now i.clock))
  attempt_reboot _ _ = pure tt

  remove_finalizer_of : String → Option (List String) → M State Done
  remove_finalizer_of kind none w = done tt w
  remove_finalizer_of kind (some names) w =
      when (has_finalizer helper.controller_name names)
        (ask (remove_finalizer kind) (λ t. env.act t (remove_finalizer kind))
          >>= wrap ("failed to remove finalizer from " <> kind))
        w

  pub finalizer_removal : M State Done
  unfolding remove_finalizer_of
  finalizer_removal = do
    status ← lift i.machine_status
    bmc ← lift i.bmc
    attempt_reboot status bmc
    remove_finalizer_of "machine status" (Option.map (λ s. s.finalizers) status)
    remove_finalizer_of "bmc configuration" (Option.map (λ c. c.finalizers) bmc)
