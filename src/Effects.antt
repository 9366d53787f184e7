-- ===== src/Effects.antt =====
-- What a controller does to the world outside its resources. A call of the BMC or the agent is
-- answered by an environment, which is any function of the calls made before it; a handler is a
-- function on a world, the resource that it writes and the calls that it has made.
use omni_infra_provider_bare.Base.{
  Bool, List, Option, String, false, inl, inr, refl, true, ℕ, ◌∷◌, ◌≡◌, ◌⊎◌,
}
use omni_infra_provider_bare.Base.Int.{ℤ}
use omni_infra_provider_bare.Resources.{BmcConfiguration}

-- The gRPC status codes that the code tells apart.
pub data Code : Type 0 where
  internal canceled deadline_exceeded unavailable other_code : Code

-- An error of a call: its status code, its text, and whether it is a context's end.
pub record Failure : Type 0 where
  pub code : Code
  pub message : String
  pub context_ended : Bool

-- What a handler returns as its error: a failure, as it is or under a text, an error of its own, a
-- skip of the reconciliation, or a wish to be called again after a time in nanoseconds.
pub data Error : Type 0 where
  failed : Failure → Error
  wrapped : String → Failure → Error
  invalid : String → Error
  skip : String → Error
  requeue : ℤ → Error

pub data Result (E A : Type 0) : Type 0 where
  ok : A → Result E A
  err : E → Result E A

pub Result-cases :
    {E A : Type 0} (r : Result E A) → ((a : A) × (r ≡ ok a)) ⊎ ((e : E) × (r ≡ err e))
Result-cases (ok a) = inl (a, refl)
Result-cases (err e) = inr (e, refl)

abbrev pub Done : Type 0
Done = Unit {0}

-- type pxe.BootMode, a text, with its two constants
pub data PxeMode : Type 0 where
  bios uefi : PxeMode
  other_mode : String → PxeMode

-- type Capabilities of internal/provider/bmc
pub record Capabilities : Type 0 where
  pub power_state : Bool
  pub power_control : Bool
  pub boot_device_control : Bool
  pub can_reboot : Bool

-- What the agent says of a machine's power management: the API is there, and the address and the
-- port of its IPMI.
pub record AgentPower : Type 0 where
  pub has_api : Bool
  pub agent_ipmi : Option (String × ℕ)

-- The calls: those of bmc.Client and of the agent, the password generator, and those of the runtime on
-- the finalizers of the machine's resource that the text names.
pub data Call : Type 0 where
  get_client close_client reboot_machine power_on power_off is_powered_on : Call
  set_pxe_boot_once : PxeMode → Call
  agent_reboot wipe_disks is_accessible get_power_management : String → Call
  set_power_management : String → Bool → Option (String × String) → Call
  read_management_address : String → Call
  generate_password : Call
  add_finalizer remove_finalizer : String → Call

abbrev pub Trace : Type 0
Trace = List Call

-- The answers to the calls, from the calls made before, the latest first.
pub record Env : Type 0 where
  pub client : Trace → BmcConfiguration → Result Failure Capabilities
  pub power : Trace → Result Failure Bool
  pub accessible : Trace → String → Result Failure Bool
  pub management : Trace → String → Result Failure AgentPower
  pub address : Trace → String → Result Failure String
  pub password : Trace → Result Failure String
  -- the calls that return an error or nothing
  pub act : Trace → Call → Result Failure Done

-- Whether a call of a kind was made.
abbrev pub is_power_on : Call → Bool
is_power_on power_on = true
is_power_on _ = false

abbrev pub is_power_off : Call → Bool
is_power_off power_off = true
is_power_off _ = false

abbrev pub is_set_pxe : Call → Bool
is_set_pxe (set_pxe_boot_once _) = true
is_set_pxe _ = false

-- The calls that change a machine's power or its next boot.
abbrev pub is_power_command : Call → Bool
is_power_command power_on = true
is_power_command power_off = true
is_power_command reboot_machine = true
is_power_command (set_pxe_boot_once _) = true
is_power_command (agent_reboot _) = true
is_power_command _ = false

pub record World (R : Type 0) : Type 0 where
  pub res : R
  pub trace : Trace

-- How a handler ends: with a value or an error, and with the world that it leaves.
pub data Outcome (R A : Type 0) : Type 0 where
  done : A → World R → Outcome R A
  stop : Error → World R → Outcome R A

module _ {R A : Type 0} where
  abbrev pub final : Outcome R A → World R
  final (done _ w) = w
  final (stop _ w) = w

  pub Outcome-cases :
      (r : Outcome R A)
      → ((a : A) × (w : World R) × (r ≡ done a w)) ⊎ ((e : Error) × (w : World R) × (r ≡ stop e w))
  Outcome-cases (done a w) = inl (a, w, refl)
  Outcome-cases (stop e w) = inr (e, w, refl)

abbrev pub M : Type 0 → Type 0 → Type 0
M R A = World R → Outcome R A

module _ {R : Type 0} where
  abbrev pub pure : {A : Type 0} → A → M R A
  pure a w = done a w

  abbrev pub raise : {A : Type 0} → Error → M R A
  raise e w = stop e w

  infixl 5 ◌>>=◌ ◌>>◌
  abbrev pub ◌>>=◌ : {A B : Type 0} → M R A → (A → M R B) → M R B
  ◌>>=◌ m f w = elim (m w) [ done a w' ↦ f a w' | stop e w' ↦ stop e w' ]

  abbrev pub ◌>>◌ : {A B : Type 0} → M R A → M R B → M R B
  m >> k = m >>= λ _. k

  -- `if c { return e }`
  abbrev pub raise_if : Bool → Error → M R Done
  raise_if c e w = elim c [ true ↦ stop e w | false ↦ done tt w ]

  -- `if err != nil { return err }` on a value that was read before
  abbrev pub lift : {A : Type 0} → Result Failure A → M R A
  lift (ok a) w = done a w
  lift (err f) w = stop (failed f) w

  -- `fmt.Errorf("text: %w", err)` on an error that is returned
  abbrev pub wrap : {A : Type 0} → String → Result Failure A → M R A
  wrap text (ok a) w = done a w
  wrap text (err f) w = stop (wrapped text f) w

  -- `if c { … }`
  abbrev pub when : Bool → M R Done → M R Done
  when c m w = elim c [ true ↦ m w | false ↦ done tt w ]

  -- `if c { … } else { … }`
  abbrev pub branch : {A : Type 0} → Bool → M R A → M R A → M R A
  branch c m k w = elim c [ true ↦ m w | false ↦ k w ]

  abbrev pub gets : {A : Type 0} → (R → A) → M R A
  gets f w = done (f w.res) w

  abbrev pub modify : (R → R) → M R Done
  modify f w = done tt (record w { res = f w.res })

  abbrev pub log : Call → World R → World R
  log c w = record w { trace = c ∷ w.trace }

  -- A call with an answer, recorded in the trace; `ask` keeps its failure as a value.
  abbrev pub ask : {A : Type 0} → Call → (Trace → Result Failure A) → M R (Result Failure A)
  ask c answer w = done (answer w.trace) (log c w)

  abbrev pub call : {A : Type 0} → Call → (Trace → Result Failure A) → M R A
  call c answer w = lift (answer w.trace) (log c w)

  abbrev pub act : Env → Call → M R Done
  act env c w = lift (env.act w.trace c) (log c w)

  -- The client is closed when the handler returns, whatever it returns; util.LogCloseContext only logs
  -- the error of that.
  abbrev pub close_after : {A : Type 0} → Outcome R A → Outcome R A
  close_after (done a w) = done a (log close_client w)
  close_after (stop e w) = stop e (log close_client w)

  -- `GetClient`, an early return of its error, and `defer util.LogCloseContext(...)`.
  unfoldable pub with_client :
      {A : Type 0} → Env → BmcConfiguration → (Capabilities → M R A) → M R A
  with_client env c body w = elim (env.client w.trace c) [
    | ok caps ↦ close_after (body caps (log get_client w))
    | err f ↦ stop (failed f) (log get_client w)
  ]
