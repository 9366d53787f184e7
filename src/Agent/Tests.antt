-- ===== src/Agent/Tests.antt =====
-- Two tunnels, of which one has no id.
use omni_infra_provider_bare.Base.{List, [], false, none, refl, some, true, ◌∷◌, ◌≡◌}
use omni_infra_provider_bare.Base.Dict.{insert, lookup}
use omni_infra_provider_bare.Agent.{
  Metadata, all_connected_machines, connected_from, handle_tunnel_event, is_connected,
  machine_id_affinity_key,
}

abbrev tunnels : List Metadata
tunnels = some ("m1" ∷ "m9" ∷ []) ∷ none ∷ []

connected_text : is_connected (all_connected_machines tunnels) "m1" ≡ true
unfolding all_connected_machines connected_from machine_id_affinity_key insert lookup
connected_text = refl

event_text :
    handle_tunnel_event (some ("m1" ∷ [])) true false false
    ≡ some (record { machine_id = "m1"; connected = true })
unfolding handle_tunnel_event machine_id_affinity_key
event_text = refl
