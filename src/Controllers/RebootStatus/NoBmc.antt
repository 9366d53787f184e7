-- ===== src/Controllers/RebootStatus/NoBmc.antt =====
-- What the reboot controller does for a machine whose BMC client cannot reboot it.
use mathlib.Core.Option
use mathlib.Core.Path.{subst}
use omni_infra_provider_bare.Base.{
  Bool, List, Option, String, [], any, arith, false, inl, inr, none, refl, some, ℕ, ◌≡◌,
}
use omni_infra_provider_bare.Resources.{
  BmcConfiguration, InfraMachine, MachineStatus, PowerOperation, WipeStatus,
}
use omni_infra_provider_bare.Machine.{requires_pxe_boot}
use omni_infra_provider_bare.Effects.{
  Call, Capabilities, Env, Failure, M, Outcome, Result, Result-cases, Trace, World, agent_reboot,
  done, err, final, is_power_command, ok, stop, ◌>>=◌,
}
use omni_infra_provider_bare.Controllers.RebootStatus.{
  Helper, Inputs, State, decide, ensure_finalizer, guarded, reboot, transform,
}
use omni_infra_provider_bare.Controllers.RebootStatus.Laws.{mode_of, run}

-- A call that drives a BMC.
abbrev pub is_bmc_command : Call → Bool
is_bmc_command (agent_reboot _) = false
is_bmc_command c = is_power_command c

-- Whether a client is made, and can reboot.
abbrev pub reboots : Result Failure Capabilities → Bool
reboots (ok caps) = caps.can_reboot
reboots (err f) = false

-- A handler that makes no call that drives a BMC.
IsQuiet : {A : Type 0} → M State A → Type 0
IsQuiet m =
    (w : World State)
    → any is_bmc_command w.trace ≡ false
    → any is_bmc_command (final (m w)).trace ≡ false

bind-IsQuiet :
    {A B : Type 0} (m : M State A) (k : A → M State B)
    → IsQuiet m
    → ((a : A) → IsQuiet (k a))
    → IsQuiet (m >>= k)
unfolding IsQuiet
bind-IsQuiet {A} m k hm hk w q = go (m w) refl
  where
    go :
        (r : Outcome State A)
        → m w ≡ r
        → any is_bmc_command
            (final {R = State} (elim r [ done a w' ↦ k a w' | stop e w' ↦ stop e w' ])).trace
          ≡ false
    go (done a w') e = hk a w' (subst (λ r. any is_bmc_command (final r).trace ≡ false) e (hm w q))
    go (stop x w') e = subst (λ r. any is_bmc_command (final r).trace ≡ false) e (hm w q)

module _ (env : Env) (helper : Helper) where
  ensure_finalizer-IsQuiet :
      (kind : String) (names : Option (List String))
      → IsQuiet (ensure_finalizer env helper kind names)
  unfolding ensure_finalizer IsQuiet
  ensure_finalizer-IsQuiet kind none w q = q
  ensure_finalizer-IsQuiet kind (some names) w q = ground arith

  reboot-IsQuiet :
      (m : InfraMachine) (c : BmcConfiguration) (operation : Option PowerOperation)
      (pxe accessible : Bool) (now clock : ℕ)
      → ((t : Trace) → reboots (env.client t c) ≡ false)
      → IsQuiet (reboot env helper m c operation pxe accessible now clock)
  unfolding reboot IsQuiet
  reboot-IsQuiet m c operation pxe accessible now clock cannot w q = ground (arith, cannot w.trace)

  decide-IsQuiet :
      (i : Inputs) (s : MachineStatus) (c : BmcConfiguration) (wipe : Option WipeStatus)
      (operation : Option PowerOperation)
      → ((t : Trace) → reboots (env.client t c) ≡ false)
      → IsQuiet (decide env helper i s c wipe operation)
  unfolding decide IsQuiet
  decide-IsQuiet i s c wipe operation cannot w q = ground (
    arith,
    reboot-IsQuiet i.machine c operation (requires_pxe_boot (mode_of helper i c wipe))
        s.agent_accessible i.now i.clock cannot w q,
  )

  guarded-IsQuiet :
      (i : Inputs) (status : Option MachineStatus) (c : BmcConfiguration)
      → ((t : Trace) → reboots (env.client t c) ≡ false)
      → IsQuiet (guarded env helper i status (some c))
  unfolding guarded IsQuiet
  guarded-IsQuiet i none c cannot w q = ground arith
  guarded-IsQuiet i (some s) c cannot w q = elim (Result-cases i.wipe) [
    | inr (f, e) ↦ ground arith
    | inl (wipe, e) ↦ elim (Result-cases i.operation) [
      | inr (f, e') ↦ ground arith
      | inl (operation, e') ↦ ground (arith, decide-IsQuiet i s c wipe operation cannot w q)
    ]
  ]

  -- No call drives the BMC.
  pub no_bmc_command :
      (i : Inputs) (st : State) (c : BmcConfiguration)
      → i.bmc ≡ ok (some c)
      → ((t : Trace) → reboots (env.client t c) ≡ false)
      → any is_bmc_command (final (run env helper i st)).trace ≡ false
  unfolding transform IsQuiet guarded
  no_bmc_command i st c b cannot = elim (Result-cases i.machine_status) [
    | inr (f, e) ↦ ground arith
    | inl (status, e) ↦
        let first =
          ensure_finalizer env helper "machine status" (Option.map (λ s. s.finalizers) status) in
        let second = ensure_finalizer env helper "bmc configuration" (some c.finalizers) in
        let start : World State = record { res = st; trace = [] } in
        let quiet =
          bind-IsQuiet first (λ _. second >>= λ _. guarded env helper i status (some c))
            (ensure_finalizer-IsQuiet "machine status" (Option.map (λ s. s.finalizers) status))
            (λ _.
              bind-IsQuiet second (λ _. guarded env helper i status (some c))
                (ensure_finalizer-IsQuiet "bmc configuration" (some c.finalizers))
                (λ _. guarded-IsQuiet i status c cannot))
            start refl in
        rw (transform, e, b) quiet
  ]
