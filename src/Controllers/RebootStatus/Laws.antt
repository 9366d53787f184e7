-- ===== src/Controllers/RebootStatus/Laws.antt =====
-- When a machine is rebooted, over which channel, and when it is left alone.
use mathlib.Core.Option
use omni_infra_provider_bare.Base.{
  Bool, Bool-cases, List, Option, String, [], any, arith, false, inl, inr, none, refl, some, str_eq,
  true, ℕ, ◌&&◌, ◌+◌, ◌<>◌, ◌<◌, ◌∷◌, ◌≡◌, ◌⊎◌,
}
use omni_infra_provider_bare.Base.Int.{ltb_ℤ, pos, two63}
use omni_infra_provider_bare.Resources.{
  BmcConfiguration, InfraMachine, MachineStatus, PowerOperation, RebootStatus, WipeStatus, accepted,
}
use omni_infra_provider_bare.Machine.{
  BootMode, agent_pxe, required_boot_mode, requires_power_on, requires_pxe_boot, talos_pxe,
}
use omni_infra_provider_bare.Effects.{
  Call, Capabilities, Done, Env, Error, Failure, Outcome, Result-cases, Trace, World, add_finalizer,
  agent_reboot, close_client, done, err, final, get_client, ok, reboot_machine, set_pxe_boot_once,
  skip, stop, wrapped,
}
use omni_infra_provider_bare.Controllers.Common.{time_since_last_power_on}
use omni_infra_provider_bare.Controllers.Common.Laws.{in_cooldown}
use omni_infra_provider_bare.Controllers.RebootStatus.{
  Helper, Inputs, State, decide, ensure_finalizer, guarded, has_finalizer, last_reboot_id_of,
  reboot, reboot_over_any_channel, record_reboot, transform,
}

abbrev pub is_reboot : Call → Bool
is_reboot reboot_machine = true
is_reboot (agent_reboot _) = true
is_reboot _ = false

abbrev pub run : Env → Helper → Inputs → State → Outcome State Done
run env helper i s = transform env helper i (record { res = s; trace = [] })

abbrev pub mode_of : Helper → Inputs → BmcConfiguration → Option WipeStatus → BootMode
mode_of helper i c wipe = required_boot_mode (some i.machine) (some c) wipe helper.boot_options

-- What the controller has read when it acts on a machine.
pub record IsManaged (i : Inputs) (s : MachineStatus) (c : BmcConfiguration)
    (wipe : Option WipeStatus) (operation : Option PowerOperation) : Type 0 where
  pub accepted : i.machine.acceptance_status ≡ accepted
  pub not_cordoned : i.machine.cordoned ≡ false
  pub status : i.machine_status ≡ ok (some s)
  pub bmc : i.bmc ≡ ok (some c)
  pub wipe_read : i.wipe ≡ ok wipe
  pub operation_read : i.operation ≡ ok operation

abbrev pub is_agent_reboot : Call → Bool
is_agent_reboot (agent_reboot _) = true
is_agent_reboot _ = false

abbrev pub is_bmc_reboot : Call → Bool
is_bmc_reboot reboot_machine = true
is_bmc_reboot _ = false

module _ (env : Env) (helper : Helper) (i : Inputs) (st : State) where
  -- The reconciliation of a machine that is not being removed reboots it only if it is accepted and not
  -- cordoned, its status and its BMC configuration are there, and the last boot is at least the minimum
  -- reboot interval ago; and only because it is required to be on and its agent answers when Talos should run over the network or
  -- is silent when the agent should run, or because the user requested a reboot that was not yet done.
  pub reboot_safe :
      any is_reboot (final (run env helper i st)).trace ≡ true
      → (s : MachineStatus) × (c : BmcConfiguration) × (wipe : Option WipeStatus)
        × (operation : Option PowerOperation) × IsManaged i s c wipe operation
        × (((requires_power_on i.machine wipe ≡ true)
              × (((mode_of helper i c wipe ≡ agent_pxe) × (s.agent_accessible ≡ false))
                  ⊎ ((mode_of helper i c wipe ≡ talos_pxe) × (s.agent_accessible ≡ true))))
            ⊎ (str_eq (last_reboot_id_of st) i.machine.requested_reboot_id ≡ false))
        × (ltb_ℤ (time_since_last_power_on i.clock operation st) helper.min_reboot_interval ≡ false)
  unfolding transform guarded ensure_finalizer reboot
  reboot_safe h = ground arith

-- What a handler on the status `st` may leave behind.
abbrev pub Settled : InfraMachine → ℕ → State → Outcome State Done → Type 0
Settled m now st (stop e w) = w.res ≡ st
Settled m now st (done _ w) =
    (w.res ≡ st) ⊎ ((any is_reboot w.trace ≡ true) × (w.res ≡ record_reboot m now st))

module _ (env : Env) (helper : Helper) (i : Inputs) (st : State) where
  reboot-Settled :
      (c : BmcConfiguration) (operation : Option PowerOperation) (pxe accessible : Bool)
      (trace : Trace)
      → Settled i.machine i.now st (
          reboot env helper i.machine c operation pxe accessible i.now i.clock
            (record { res = st; trace = trace }))
  unfolding reboot
  reboot-Settled c operation pxe accessible trace = ground arith

  decide-Settled :
      (s : MachineStatus) (c : BmcConfiguration) (wipe : Option WipeStatus)
      (operation : Option PowerOperation) (trace : Trace)
      → Settled i.machine i.now st
          (decide env helper i s c wipe operation (record { res = st; trace = trace }))
  unfolding decide
  decide-Settled s c wipe operation trace = ground (
    arith,
    reboot-Settled c operation (requires_pxe_boot (mode_of helper i c wipe)) s.agent_accessible
        trace,
  )

  -- The rest of `transform`, once the finalizers are there.
  guarded-Settled :
      (status : Option MachineStatus) (bmc : Option BmcConfiguration) (trace : Trace)
      → Settled i.machine i.now st
          (guarded env helper i status bmc (record { res = st; trace = trace }))
  unfolding guarded
  guarded-Settled (some s) (some c) trace = elim (Result-cases i.wipe) [
    | inl (wipe, e) ↦ elim (Result-cases i.operation) [
      | inl (operation, e') ↦ ground (arith, decide-Settled s c wipe operation trace)
      | inr (f, e') ↦ ground arith
    ]
    | inr (f, e') ↦ ground arith
  ]
  guarded-Settled none bmc trace = ground arith
  guarded-Settled (some s) none trace = ground arith

  abbrev names_of : Option MachineStatus → Option (List String)
  names_of = Option.map (λ s. s.finalizers)

  abbrev bmc_names_of : Option BmcConfiguration → Option (List String)
  bmc_names_of = Option.map (λ c. c.finalizers)

  ensure_finalizer_cases :
      (kind : String) (names : Option (List String)) (trace : Trace)
      → let r = ensure_finalizer env helper kind names (record { res = st; trace = trace }) in
        ((t : Trace) × (r ≡ done tt (record { res = st; trace = t })))
        ⊎ ((e : Error) × (t : Trace) × (r ≡ stop e (record { res = st; trace = t })))
  unfolding ensure_finalizer
  ensure_finalizer_cases kind none trace = inl (trace, refl)
  ensure_finalizer_cases kind (some names) trace =
      elim (Bool-cases (has_finalizer helper.controller_name names)) [
        | inl present ↦ inl (trace, ground arith)
        | inr missing ↦ elim (Result-cases (env.act trace (add_finalizer kind))) [
          | inl (_, e) ↦ inl (add_finalizer kind ∷ trace, ground arith)
          | inr (f, e) ↦ inr (
            wrapped ("failed to add finalizer to " <> kind) f,
            add_finalizer kind ∷ trace,
            ground arith,
          )
        ]
      ]

  -- The reboot status changes only when the handler ends without an error after a reboot, and then to
  -- the requested id and the time; after an error it is what it was.
  pub run-Settled : Settled i.machine i.now st (run env helper i st)
  unfolding transform
  run-Settled = elim (Result-cases i.machine_status) [
    | inr (f, e) ↦ ground arith
    | inl (status, e) ↦ elim (ensure_finalizer_cases "machine status" (names_of status) []) [
      | inr (x, t, e') ↦ ground arith
      | inl (t, e') ↦ elim (Result-cases i.bmc) [
        | inr (f, b) ↦ ground arith
        | inl (bmc, b) ↦ elim (ensure_finalizer_cases "bmc configuration" (bmc_names_of bmc) t) [
          | inr (x, t', e'') ↦ ground arith
          | inl (t', e'') ↦ ground (arith, guarded-Settled status bmc t')
        ]
      ]
    ]
  ]

module _ (env : Env) (helper : Helper) (id : String) (c : BmcConfiguration) (pxe accessible : Bool)
    (w : World State) where
  -- The channel of a reboot, for a client that the factory hands out. A client that can reboot is
  -- used, exactly after it has pointed the next boot at the network if that is asked for and it can, and
  -- not if that fails; the agent is not called. Without one, an accessible agent is called and the BMC is sent nothing; and
  -- with neither, the reconciliation is skipped. The client is closed in each case.
  pub channel :
      {caps : Capabilities}
      → env.client w.trace c ≡ ok caps
      → let t = (final (reboot_over_any_channel env helper id c pxe accessible w)).trace in
        let opened = get_client ∷ w.trace in
        let set = set_pxe_boot_once helper.pxe_boot_mode in
        ((caps.can_reboot ≡ true)
          × (((pxe && caps.boot_device_control ≡ false)
                × (t ≡ close_client ∷ reboot_machine ∷ opened))
              ⊎ ((pxe && caps.boot_device_control ≡ true)
                  × (env.act opened set ≡ ok tt)
                  × (t ≡ close_client ∷ reboot_machine ∷ set ∷ opened))
              ⊎ ((pxe && caps.boot_device_control ≡ true)
                  × ((f : Failure) × (env.act opened set ≡ err f))
                  × (t ≡ close_client ∷ set ∷ opened))))
        ⊎ ((caps.can_reboot ≡ false)
            × (accessible ≡ true)
            × (t ≡ close_client ∷ agent_reboot id ∷ opened))
        ⊎ ((caps.can_reboot ≡ false)
            × (accessible ≡ false)
            × (reboot_over_any_channel env helper id c pxe accessible w
                ≡ stop
                    (skip "machine requires a manual reboot")
                    (record w { trace = close_client ∷ opened })))
  unfolding reboot_over_any_channel
  channel e = ground arith

-- No reboot loop: after a reboot was recorded at the time `t`, no call on that status reboots the
-- machine at a clock below `t` plus the minimum reboot interval, whatever is read and answered then.
pub no_reboot_in_cooldown :
    (env : Env) (helper : Helper) (i : Inputs) (s : RebootStatus) (t n : ℕ)
    → s.last_reboot_timestamp ≡ some t
    → helper.min_reboot_interval ≡ pos n
    → n < two63
    → i.clock < t + n
    → any is_reboot (final (run env helper i (some s))).trace ≡ false
no_reboot_in_cooldown env helper i s t n stamp interval small early =
    elim (Bool-cases (any is_reboot (final (run env helper i (some s))).trace)) [
      | inl rebooted ↦
          let (_, _, _, operation, _, _, over) = reboot_safe env helper i (some s) rebooted in
          absurd (still_cooling operation over)
      | inr quiet ↦ quiet
    ]
  where
    still_cooling :
        (operation : Option PowerOperation)
        → ltb_ℤ (time_since_last_power_on i.clock operation (some s)) helper.min_reboot_interval
          ≡ false
        → ⊥
    still_cooling operation over =
        cc (over, interval, in_cooldown i.clock operation (some s) t n (ground arith) early small)
