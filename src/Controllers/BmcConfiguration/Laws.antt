-- ===== src/Controllers/BmcConfiguration/Laws.antt =====
-- What is recorded of a machine's BMC, and that it is recorded once.
use omni_infra_provider_bare.Base.{
  Bool, String, [], arith, false, none, some, true, ℕ, ◌∷◌, ◌≡◌, ◌≢◌, ◌⊎◌,
}
use omni_infra_provider_bare.Resources.{BmcConfiguration, Ipmi, MachineStatus, accepted}
use omni_infra_provider_bare.Effects.{
  AgentPower, Done, Env, Failure, Outcome, World, done, err, final, generate_password,
  get_power_management, internal, ok, set_power_management,
}
use omni_infra_provider_bare.Bmc.{Cache, Endpoints, FactoryOptions, api_client, factory_get_client}
use omni_infra_provider_bare.Controllers.BmcConfiguration.{
  Inputs, UserConfig, ensure_power_management, has_no_bmc, ipmi_username, is_initialized,
  is_no_bmc_error, record_manual, transform,
}

abbrev pub run : Env → Bool → Inputs → BmcConfiguration → Outcome BmcConfiguration Done
run env allow i c = transform env allow i (record { res = c; trace = [] })

-- A machine whose agent can be asked.
pub record IsReachable (i : Inputs) : Type 0 where
  pub accepted : i.machine.acceptance_status ≡ accepted
  pub not_cordoned : i.machine.cordoned ≡ false
  pub status : MachineStatus
  pub read : i.machine_status ≡ ok (some status)
  pub agent : status.agent_accessible ≡ true

module _ (env : Env) (allow : Bool) (i : Inputs) (c : BmcConfiguration) where
  -- A machine becomes manually powered only if that is allowed, no user configuration is there, and the
  -- agent either answered that there is no power management or failed with an internal error that
  -- names IPMI; a failure in transit with another code never does it.
  pub manual_only_without_bmc :
      c.manual ≡ false
      → (final (run env allow i c)).res.manual ≡ true
      → (allow ≡ true)
        × IsReachable i
        × (i.user ≡ ok none)
        × (((f : Failure) × (env.management [] i.machine.id ≡ err f)
              × (f.code ≡ internal)
              × (is_no_bmc_error f ≡ true))
            ⊎ ((p : AgentPower) × (env.management [] i.machine.id ≡ ok p)
                × (p.has_api ≡ false)
                × (p.agent_ipmi ≡ none)))
  unfolding transform has_no_bmc record_manual ensure_power_management
  manual_only_without_bmc a b = ground arith

  initialized_after :
      {w : World BmcConfiguration}
      → i.user ≡ ok none
      → run env allow i c ≡ done tt w
      → is_initialized w.res ≡ true
  unfolding transform has_no_bmc record_manual ensure_power_management
  initialized_after e d = ground arith

  -- Without a user configuration the agent is asked and provisioned only once: a handler that ends
  -- without an error leaves the configuration initialized, and on the configuration that it leaves, the
  -- handler makes no call and changes nothing, with any inputs without a user configuration and any
  -- answers.
  pub provisioned_once :
      {w : World BmcConfiguration} (other : Env) (later : Inputs)
      → i.user ≡ ok none
      → run env allow i c ≡ done tt w
      → later.user ≡ ok none
      → let again = final (run other allow later w.res) in
        (is_initialized w.res ≡ true) × (again.trace ≡ []) × (again.res ≡ w.res)
  unfolding transform has_no_bmc record_manual ensure_power_management
  provisioned_once {w} other later e d e' =
      let known = initialized_after e d in ground (arith, known)

  -- The credentials that are recorded are those that the agent was sent: if the agent named an IPMI and
  -- the call ends without an error, the recorded address and port are the agent's, and the agent was
  -- sent the recorded user name and password.
  pub credentials_agree :
      (p : AgentPower) (address : String) (port : ℕ) {w : World BmcConfiguration}
      → i.user ≡ ok none
      → env.management [] i.machine.id ≡ ok p
      → p.agent_ipmi ≡ some (address, port)
      → run env allow i c ≡ done tt w
      → (password : String) × (w.res.ipmi
          ≡ some (record {
            address = address;
            port = port;
            username = ipmi_username;
            password = password;
          }))
        × (env.password (get_power_management i.machine.id ∷ []) ≡ ok password)
        × (env.act
              (generate_password ∷ get_power_management i.machine.id ∷ [])
              (set_power_management i.machine.id p.has_api (some (ipmi_username, password)))
            ≡ ok tt)
  unfolding transform has_no_bmc record_manual ensure_power_management
  credentials_agree p address port e m a d = ground arith

  -- An API's address that is there already outlives a user's configuration that gives an IPMI only: the
  -- configuration then holds both, and the factory selects the client of the API, whatever its options
  -- and its cache are.
  pub user_ipmi_shadowed :
      (options : FactoryOptions) (ends : Endpoints) (cache : Cache) (u : UserConfig) (p : Ipmi)
      (address : String)
      → IsReachable i
      → i.user ≡ ok (some (some u))
      → u.ipmi ≡ some p
      → u.api ≡ none
      → c.api ≡ some address
      → let w = final (run env allow i c) in
        (w.res.ipmi ≢ none)
        × ((factory_get_client options ends (some w.res) cache).0 ≡ ok api_client)
  unfolding transform factory_get_client
  user_ipmi_shadowed options ends cache u p address r e a b d = ground arith
