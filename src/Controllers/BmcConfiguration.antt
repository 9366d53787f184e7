-- ===== src/Controllers/BmcConfiguration.antt =====
-- internal/provider/controllers/bmc_configuration.go: how the provider will reach a machine's BMC.
pub mod Laws
pub mod Password
mod Tests
use omni_infra_provider_bare.Base.{
  Bool, Option, String, codes, contains, false, if◌then◌else◌, is_some, none, not, some, to_lower,
  true, ℕ, ◌&&◌, ◌==◌, ◌||◌,
}
use omni_infra_provider_bare.Resources.{BmcConfiguration, InfraMachine, Ipmi, MachineStatus}
use omni_infra_provider_bare.Effects.{
  AgentPower, Code, Done, Env, Failure, M, Result, act, ask, branch, call, done, err, failed,
  generate_password, get_power_management, gets, internal, invalid, lift, modify, ok, pure, raise,
  raise_if, read_management_address, set_power_management, skip, stop, when, wrap, wrapped, ◌>>=◌,
  ◌>>◌,
}
use omni_infra_provider_bare.Controllers.Common.{Read, require, validate_infra_machine}

-- const IPMIUsername
abbrev pub ipmi_username : String
ipmi_username = "talos-agent"

-- const IPMIDefaultPort
abbrev pub ipmi_default_port : ℕ
ipmi_default_port = 623

-- The `Config` of Omni's `infra.BMCConfig`: the API's address, and the IPMI's data.
pub record UserConfig : Type 0 where
  pub ipmi : Option Ipmi
  pub api : Option String

-- What `transform` reads besides the resource that it writes; the user's configuration may be there
-- with no content.
pub record Inputs : Type 0 where
  pub machine : InfraMachine
  pub machine_status : Read MachineStatus
  pub user : Read (Option UserConfig)

abbrev is_internal : Code → Bool
is_internal internal = true
is_internal _ = false

unfoldable pub is_no_bmc_error : Failure → Bool
unfolding contains to_lower
is_no_bmc_error f =
    if not (is_internal f.code) then false else contains (to_lower (codes f.message)) (codes "ipmi")

abbrev pub says_nothing : AgentPower → Bool
says_nothing p = not p.has_api && not (is_some p.agent_ipmi)

-- hasNoBMC on the answer of GetPowerManagement, with AllowMachinesWithoutBMC first.
unfoldable pub has_no_bmc : Bool → Result Failure AgentPower → Bool
unfolding is_no_bmc_error
has_no_bmc allow (err f) = if not allow then false else is_no_bmc_error f
has_no_bmc allow (ok p) = if not allow then false else says_nothing p

abbrev port_or_default : ℕ → ℕ
port_or_default n = if n == 0 then ipmi_default_port else n

abbrev with_default_port : Ipmi → Ipmi
with_default_port p = record p { port = port_or_default p.port }

abbrev set_ipmi : Option Ipmi → BmcConfiguration → BmcConfiguration
set_ipmi none c = c
set_ipmi (some p) c = record c { ipmi = some (with_default_port p) }

abbrev set_api : Option String → BmcConfiguration → BmcConfiguration
set_api none c = c
set_api (some address) c = record c { api = some address }

unfoldable pub store_user_provided : Option UserConfig → M BmcConfiguration Done
store_user_provided none w = stop (invalid "user provided BMC config is nil") w
store_user_provided (some u) w =
    modify
      (λ c.
        set_api u.api (set_ipmi u.ipmi (record c { manually_configured = true; manual = false })))
      w

unfoldable pub record_manual : BmcConfiguration → BmcConfiguration
record_manual c = record c { manually_configured = false; manual = true }

abbrev pub is_initialized : BmcConfiguration → Bool
is_initialized c = not c.manually_configured && (is_some c.api || is_some c.ipmi || c.manual)

module _ (env : Env) where
  -- The request that the agent is sent: the API, and the credentials of the IPMI.
  set_power : String → Bool → Option (String × String) → M BmcConfiguration Done
  set_power id api ipmi = act env (set_power_management id api ipmi)

  unfoldable pub ensure_power_management : String → AgentPower → M BmcConfiguration String
  unfolding set_power
  ensure_power_management id p =
      branch (says_nothing p)
        (raise (invalid "machine did not provide any power management information"))
        (branch (is_some p.agent_ipmi)
          (do
            password ← call generate_password env.password
            set_power id p.has_api (some (ipmi_username, password))
            pure password)
          (set_power id p.has_api none >> pure ""))

  record_api : String → Bool → M BmcConfiguration Done
  record_api id has_api = when has_api (
      call (read_management_address id) (λ t. env.address t id) >>= λ a.
      modify λ c. record c { api = some a })

  abbrev record_ipmi : Option (String × ℕ) → String → BmcConfiguration → BmcConfiguration
  record_ipmi none password c = c
  record_ipmi (some (address, port)) password c = record c {
    ipmi =
        some (record {
          address = address;
          port = port;
          username = ipmi_username;
          password = password;
        });
  }

  -- `fmt.Errorf("failed to ensure power management on agent: %w", err)`, where the failure may be an
  -- error of the handler's own.
  abbrev rename : {A : Type 0} → M BmcConfiguration A → M BmcConfiguration A
  rename m w = elim (m w) [
    | done a w' ↦ done a w'
    | stop (failed f) w' ↦ stop (wrapped "failed to ensure power management on agent" f) w'
    | stop e w' ↦ stop e w'
  ]

  -- The part of `transform` that has the agent's answer, of a machine with power management.
  configure : String → AgentPower → M BmcConfiguration Done
  unfolding record_api
  configure id p = do
    password ← rename (ensure_power_management id p)
    modify λ c. record c { manually_configured = false }
    record_api id p.has_api
    modify (record_ipmi p.agent_ipmi password)

  -- The part of `transform` that asks the agent.
  discover : Bool → String → M BmcConfiguration Done
  discover allow id = do
    answer ← ask (get_power_management id) λ t. env.management t id
    branch (has_no_bmc allow answer) (modify record_manual)
        (wrap "failed to get power management information" answer >>= configure id)

  unfoldable pub transform : Bool → Inputs → M BmcConfiguration Done
  unfolding discover configure validate_infra_machine store_user_provided
  transform allow i = do
    status ← lift i.machine_status
    user ← lift i.user
    validate_infra_machine i.machine
    s ← require status "machine status not found"
    raise_if (not s.agent_accessible) (skip "agent is not accessible")
    initialized ← gets is_initialized
    elim user [
      | some u ↦ store_user_provided u
      | none ↦
          raise_if initialized (skip "bmc config already initialized")
          >> discover allow i.machine.id
    ]
