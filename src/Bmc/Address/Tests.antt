-- ===== src/Bmc/Address/Tests.antt =====
-- Two machines, of which one has a broken file.
use omni_infra_provider_bare.Base.{
  List, String, [], arith, eq_iff, if◌then◌else◌, refl, some, str_eq, ◌∷◌, ◌≡◌,
}
use omni_infra_provider_bare.Bmc.Address.{LaunchConfig, StateDir, read_management_address}
use omni_infra_provider_bare.Bmc.Address.Laws.{
  Gives, IsGiven, IsJoined, read_management_address-IsGiven,
}
use omni_infra_provider_bare.Effects.{err, ok}

abbrev names : List String
names = "m0.config" ∷ "m1.config" ∷ "state.yaml" ∷ []

abbrev launch : LaunchConfig
launch = record {
  api_bind_port = some 8000;
  node_uuid = "m1";
  gateway_addrs = [];
  network_gateway_addrs = "10.5.0.1" ∷ [];
  api_port = 0;
}

abbrev state_dir : StateDir
state_dir = record {
  read_dir = ok names;
  read_file = λ name. if str_eq name "m0.config" then err "no such file" else ok [];
  unmarshal = λ bytes. ok launch;
  join_host_port = λ host port. "10.5.0.1:8000";
}

abbrev address : String
address = "10.5.0.1:8000"

joined : IsJoined state_dir "m1"
unfolding IsJoined
joined gateway port e = absurd (ground (arith, eq_iff address "", e))

given : IsGiven state_dir "m1" names address
unfolding IsGiven Gives
given = (
  "m1.config",
  refl,
  (refl, [], refl, launch, refl, refl, "10.5.0.1", [], refl, ground arith, refl),
)

read_management_address-IsGiven_example :
    (found : String) × (read_management_address state_dir "m1" ≡ ok found)
    × IsGiven state_dir "m1" names found
read_management_address-IsGiven_example =
    read_management_address-IsGiven state_dir "m1" names address joined refl given
