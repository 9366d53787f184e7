-- ===== src/Controllers/Removal/Laws.antt =====
-- A machine that is removed is rebooted at best once, and never held back by that.
use omni_infra_provider_bare.Base.{
  Option, String, [], any, arith, false, none, refl, some, true, ◌∷◌, ◌≡◌,
}
use omni_infra_provider_bare.Resources.{BmcConfiguration, MachineStatus}
use omni_infra_provider_bare.Effects.{
  Capabilities, Env, Trace, World, done, final, is_power_command, ok, remove_finalizer,
}
use omni_infra_provider_bare.Controllers.RebootStatus.{Helper, Inputs, State}
use omni_infra_provider_bare.Controllers.RebootStatus.NoBmc.{reboots}
use omni_infra_provider_bare.Controllers.RebootStatus.Laws.{is_reboot}
use omni_infra_provider_bare.Controllers.Removal.{attempt_reboot, finalizer_removal}

module _ (env : Env) (helper : Helper) (i : Inputs) where
  -- The attempt to reboot never fails.
  attempt_reboot_done :
      (s : Option MachineStatus) (c : Option BmcConfiguration) (w : World State)
      → attempt_reboot env helper i s c w ≡ done tt (final (attempt_reboot env helper i s c w))
  unfolding attempt_reboot
  attempt_reboot_done none c w = refl
  attempt_reboot_done (some s) none w = refl
  attempt_reboot_done (some s) (some c) w = ground arith

  -- No machine whose agent is accessible is rebooted, and none whose BMC cannot reboot it.
  pub attempt_reboot_safe :
      (s : MachineStatus) (c : BmcConfiguration)
      → any is_reboot
          (final (
            attempt_reboot env helper i
              (some s)
              (some c)
              (record { res = none; trace = [] }))).trace
        ≡ true
      → (caps : Capabilities) × (s.agent_accessible ≡ false)
        × (env.client [] c ≡ ok caps)
        × (caps.can_reboot ≡ true)
  unfolding attempt_reboot
  attempt_reboot_safe s c h = ground arith

  -- No power command is made for a machine whose BMC client cannot reboot it.
  pub no_power_command :
      (st : State) (c : BmcConfiguration)
      → i.bmc ≡ ok (some c)
      → reboots (env.client [] c) ≡ false
      → any is_power_command
          (final (finalizer_removal env helper i (record { res = st; trace = [] }))).trace
        ≡ false
  unfolding finalizer_removal attempt_reboot
  no_power_command st c b cannot = ground arith

  -- The removal is never held back by the reboot: when the resources can be read and the finalizers
  -- removed, finalizerRemoval ends without an error, however the calls of the BMC and the agent end.
  pub removal_completes :
      (status : Option MachineStatus) (bmc : Option BmcConfiguration)
      → i.machine_status ≡ ok status
      → i.bmc ≡ ok bmc
      → ((t : Trace) (kind : String) → env.act t (remove_finalizer kind) ≡ ok tt)
      → (w : World State)
      → finalizer_removal env helper i w ≡ done tt (final (finalizer_removal env helper i w))
  unfolding finalizer_removal
  removal_completes status bmc hs hb acts w =
      let w' = final (attempt_reboot env helper i status bmc w) in
      ground (
        arith,
        attempt_reboot_done status bmc w,
        acts w'.trace "machine status",
        acts w'.trace "bmc configuration",
        acts (remove_finalizer "machine status" ∷ w'.trace) "bmc configuration",
      )
