-- ===== src/Controllers/RebootStatus/Due.antt =====
-- What makes the reboot controller reboot a machine.
use omni_infra_provider_bare.Base.{
  Bool, Option, String, [], arith, false, if◌then◌else◌, not, some, str_eq, true, ℕ, ◌&&◌, ◌||◌,
  ◌∷◌, ◌≡◌,
}
use omni_infra_provider_bare.Base.Int.{ltb_ℤ}
use omni_infra_provider_bare.Resources.{
  BmcConfiguration, InfraMachine, MachineStatus, PowerOperation, RebootStatus, WipeStatus,
}
use omni_infra_provider_bare.Machine.{requires_power_on, requires_pxe_boot}
use omni_infra_provider_bare.Effects.{
  Capabilities, Env, Trace, agent_reboot, close_client, done, get_client, ok, reboot_machine,
  set_pxe_boot_once,
}
use omni_infra_provider_bare.Controllers.Common.{time_since_last_power_on}
use omni_infra_provider_bare.Controllers.RebootStatus.{
  Helper, Inputs, decide, ensure_finalizer, guarded, has_finalizer, mode_mismatch, reboot,
  transform,
}
use omni_infra_provider_bare.Controllers.RebootStatus.Laws.{IsManaged, mode_of, run}

-- The resources are read, the controller's finalizers are in place, and the last boot is long enough ago.
pub record IsReady (helper : Helper) (i : Inputs) (st : RebootStatus) (s : MachineStatus)
    (c : BmcConfiguration) (wipe : Option WipeStatus) : Type 0 where
  pub operation : Option PowerOperation
  pub managed : IsManaged i s c wipe operation
  pub status_held : has_finalizer helper.controller_name s.finalizers ≡ true
  pub bmc_held : has_finalizer helper.controller_name c.finalizers ≡ true
  pub cooled :
      ltb_ℤ (time_since_last_power_on i.clock operation (some st)) helper.min_reboot_interval
      ≡ false

-- The calls that a reboot makes succeed.
pub record Obeys (env : Env) (helper : Helper) (id : String) (c : BmcConfiguration)
    (caps : Capabilities) : Type 0 where
  pub connects : env.client [] c ≡ ok caps
  pub points : env.act (get_client ∷ []) (set_pxe_boot_once helper.pxe_boot_mode) ≡ ok tt
  pub reboots : env.act (get_client ∷ []) reboot_machine ≡ ok tt
  pub reboots_pointed :
      env.act (set_pxe_boot_once helper.pxe_boot_mode ∷ get_client ∷ []) reboot_machine ≡ ok tt
  pub agent_reboots : env.act (get_client ∷ []) (agent_reboot id) ≡ ok tt

abbrev pub recorded : InfraMachine → ℕ → RebootStatus → RebootStatus
recorded m now st = record st {
  last_reboot_id = m.requested_reboot_id;
  last_reboot_timestamp = some now;
}

-- The calls of a reboot over the BMC, if it can reboot, and else over the agent; the latest is first.
abbrev pub reboot_calls : Helper → String → (requires_pxe : Bool) → Capabilities → Trace
reboot_calls helper id requires_pxe caps =
    if caps.can_reboot
    then if requires_pxe && caps.boot_device_control
      then close_client ∷ reboot_machine ∷ set_pxe_boot_once helper.pxe_boot_mode ∷ get_client ∷ []
      else close_client ∷ reboot_machine ∷ get_client ∷ []
    else close_client ∷ agent_reboot id ∷ get_client ∷ []

module _ (env : Env) (helper : Helper) (i : Inputs) (st : RebootStatus) (s : MachineStatus)
    (c : BmcConfiguration) (wipe : Option WipeStatus) (caps : Capabilities) where
  reboot_lem :
      (operation : Option PowerOperation) (pxe : Bool)
      → ltb_ℤ (time_since_last_power_on i.clock operation (some st)) helper.min_reboot_interval
        ≡ false
      → Obeys env helper i.machine.id c caps
      → (caps.can_reboot || s.agent_accessible) ≡ true
      → reboot env helper i.machine c operation pxe s.agent_accessible i.now i.clock
          (record { res = some st; trace = [] })
        ≡ done tt (record {
          res = some (recorded i.machine i.now st);
          trace = reboot_calls helper i.machine.id pxe caps;
        })
  unfolding reboot
  reboot_lem operation pxe cooled o reach = ground arith

  -- A machine that is required to be on and runs in the wrong mode, or whose reboot was requested, is
  -- rebooted, over its BMC or else over its agent, and the reboot is recorded.
  pub rebooted_when_due :
      (ready : IsReady helper i st s c wipe)
      → Obeys env helper i.machine.id c caps
      → (caps.can_reboot || s.agent_accessible) ≡ true
      → ((requires_power_on i.machine wipe
            && mode_mismatch (mode_of helper i c wipe) s.agent_accessible)
          || not (str_eq st.last_reboot_id i.machine.requested_reboot_id))
        ≡ true
      → run env helper i (some st)
        ≡ done tt (record {
          res = some (recorded i.machine i.now st);
          trace =
              reboot_calls helper i.machine.id (requires_pxe_boot (mode_of helper i c wipe)) caps;
        })
  unfolding transform guarded ensure_finalizer decide
  rebooted_when_due ready o reach due = ground (
    arith,
    reboot_lem ready.operation (requires_pxe_boot (mode_of helper i c wipe)) ready.cooled o reach,
  )
