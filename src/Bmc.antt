-- ===== src/Bmc.antt =====
-- internal/provider/bmc/bmc.go: which client a machine's BMC configuration selects, and the cache of the
-- Redfish probes. The clients' libraries are parameters.
pub mod Redfish
pub mod Api
pub mod Address
pub mod Backends
pub mod Laws
use omni_infra_provider_bare.Base.{Bool, List, Option, String, false, none, some, true, ◌<>◌}
use omni_infra_provider_bare.Base.Dict.{insert, lookup}
use omni_infra_provider_bare.Resources.{BmcConfiguration, Ipmi}
use omni_infra_provider_bare.Effects.{
  Capabilities, Done, Error, Failure, Result, err, invalid, ok, wrapped,
}

-- The packages of the four clients.
pub data Kind : Type 0 where
  manual_client api_client redfish_client ipmi_client : Kind

unfoldable pub full_capabilities : Capabilities
full_capabilities = record {
  power_state = true;
  power_control = true;
  boot_device_control = true;
  can_reboot = true;
}

-- The capabilities that GetClient puts in the client it returns; for a manual one it leaves the zero
-- value.
unfoldable pub capabilities_of : Kind → Capabilities
unfolding full_capabilities
capabilities_of manual_client = record {
  power_state = false;
  power_control = false;
  boot_device_control = false;
  can_reboot = false;
}
capabilities_of _ = full_capabilities

-- The two fields of redfish.Options that select a client.
pub record FactoryOptions : Type 0 where
  pub use_always : Bool
  pub use_when_available : Bool

-- redfishAvailabilityCache
abbrev pub Cache : Type 0
Cache = List (String × Bool)

abbrev pub cache_key : String → Ipmi → String
cache_key id info = id <> "@" <> info.address

-- What the libraries answer: a Redfish IsPoweredOn, and the creation and the connection of an IPMI
-- client.
pub record Endpoints : Type 0 where
  pub redfish_is_powered_on : Ipmi → Result Failure Bool
  pub ipmi_create : Ipmi → Result Failure Done
  pub ipmi_connect : Ipmi → Result Failure Done

abbrev answers : Result Failure Bool → Bool
answers (ok _) = true
answers (err _) = false

module _ (options : FactoryOptions) (ends : Endpoints) where
  unfoldable pub redfish_available : String → Ipmi → Cache → Bool × Cache
  redfish_available id info cache = elim (lookup (cache_key id info) cache) [
    | some available ↦ (available, cache)
    | none ↦
        let available = answers (ends.redfish_is_powered_on info) in
        (available, insert (cache_key id info) available cache)
  ]

  -- The last part of GetClient: Redfish or IPMI. The probe runs only if `use_always` does not decide.
  unfoldable pub over_network : String → Ipmi → Cache → Result Error Kind × Cache
  unfolding redfish_available
  over_network id info cache = elim options.use_always [
    | true ↦ (ok redfish_client, cache)
    | false ↦ elim options.use_when_available [
      | true ↦
          let (available, cache') = redfish_available id info cache in
          elim available [ true ↦ (ok redfish_client, cache') | false ↦ (ipmi_result info, cache') ]
      | false ↦ (ipmi_result info, cache)
    ]
  ]
    where
      ipmi_result : Ipmi → Result Error Kind
      ipmi_result info = elim (ends.ipmi_create info) [
        | err f ↦ err (wrapped "failed to create IPMI client" f)
        | ok _ ↦ elim (ends.ipmi_connect info) [
          | err f ↦ err (wrapped "failed to connect IPMI client" f)
          | ok _ ↦ ok ipmi_client
        ]
      ]

  unfoldable pub factory_get_client : Option BmcConfiguration → Cache → Result Error Kind × Cache
  unfolding over_network
  factory_get_client none cache = (err (invalid "cannot get BMC client: config is nil"), cache)
  factory_get_client (some config) cache = elim config.manual [
    | true ↦ (ok manual_client, cache)
    | false ↦ elim config.api [
      | some _ ↦ (ok api_client, cache)
      | none ↦ elim config.ipmi [
        | none ↦
            (err (invalid "invalid BMC config: IPMI, API and manual fields are all nil"), cache)
        | some info ↦ over_network config.id info cache
      ]
    ]
  ]
