-- ===== src/Controllers/BmcConfiguration/Tests.antt =====
-- The BMC configuration of a concrete machine.
use omni_infra_provider_bare.Base.{
  String, [], contains, false, none, refl, some, to_lower, true, ◌∷◌, ◌≡◌, ◌≢◌,
}
use omni_infra_provider_bare.Resources.{BmcConfiguration}
use omni_infra_provider_bare.Effects.{
  AgentPower, World, final, generate_password, get_power_management, ok, set_power_management,
}
use omni_infra_provider_bare.Samples.{calm, ipmi1, lit, m1, no_bmc, talking}
use omni_infra_provider_bare.Bmc.{Endpoints, FactoryOptions, api_client, factory_get_client}
use omni_infra_provider_bare.Controllers.BmcConfiguration.{
  Inputs, UserConfig, ensure_power_management, has_no_bmc, ipmi_username, is_initialized,
  is_no_bmc_error, record_manual, transform,
}
use omni_infra_provider_bare.Controllers.BmcConfiguration.Laws.{
  IsReachable, credentials_agree, provisioned_once, run, user_ipmi_shadowed,
}

abbrev asked : Inputs
asked = record { machine = m1; machine_status = ok (some talking); user = ok none }

-- An IPMI without a port.
abbrev wish : UserConfig
wish = record { ipmi = some (record ipmi1 { port = 0 }); api = none }

abbrev told : Inputs
told = record asked { user = ok (some (some wish)) }

abbrev named : AgentPower
named = record { has_api = false; agent_ipmi = some ("10.0.0.7", 6230) }

abbrev provisioned : World BmcConfiguration
provisioned = final (run calm true asked no_bmc)

provisioned_once_example :
    let again = final (run lit true asked provisioned.res) in
    (is_initialized provisioned.res ≡ true) × (again.trace ≡ []) × (again.res ≡ provisioned.res)
unfolding transform has_no_bmc is_no_bmc_error contains to_lower record_manual
    ensure_power_management
provisioned_once_example =
    provisioned_once calm true asked no_bmc {w = provisioned} lit asked refl refl refl

credentials_agree_example :
    (password : String) × (provisioned.res.ipmi
      ≡ some (record {
        address = "10.0.0.7";
        port = 6230;
        username = ipmi_username;
        password = password;
      }))
    × (calm.password (get_power_management asked.machine.id ∷ []) ≡ ok password)
    × (calm.act
          (generate_password ∷ get_power_management asked.machine.id ∷ [])
          (set_power_management asked.machine.id named.has_api (some (ipmi_username, password)))
        ≡ ok tt)
unfolding transform has_no_bmc is_no_bmc_error contains to_lower record_manual
    ensure_power_management
credentials_agree_example =
    credentials_agree calm true asked no_bmc named "10.0.0.7" 6230 {w = provisioned} refl refl refl
      refl

abbrev with_api : BmcConfiguration
with_api = record no_bmc { api = some "10.0.0.9:8000" }

abbrev redfish_always : FactoryOptions
redfish_always = record { use_always = true; use_when_available = false }

abbrev alive : Endpoints
alive = record {
  redfish_is_powered_on = λ i. ok false;
  ipmi_create = λ i. ok tt;
  ipmi_connect = λ i. ok tt;
}

is_reachable : IsReachable told
is_reachable = record {
  accepted = refl;
  not_cordoned = refl;
  status = talking;
  read = refl;
  agent = refl;
}

user_ipmi_shadowed_example :
    let w = final (run calm true told with_api) in
    (w.res.ipmi ≢ none)
    × ((factory_get_client redfish_always alive (some w.res) []).0 ≡ ok api_client)
user_ipmi_shadowed_example =
    user_ipmi_shadowed calm true told with_api redfish_always alive [] wish
      (record ipmi1 { port = 0 }) "10.0.0.9:8000" is_reachable refl refl refl refl
