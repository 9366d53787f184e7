-- ===== src/Agent.antt =====
-- internal/provider/agent/client.go: which machines have a tunnel, and what the calls over it are. The
-- tunnel and its metadata are parameters.
mod Tests
use omni_infra_provider_bare.Base.{
  Bool, List, Option, String, [], arith, false, if◌then◌else◌, is_some, none, refl, some, str_eq,
  true, ◌||◌, ◌∷◌, ◌≡◌,
}
use omni_infra_provider_bare.Base.Dict.{insert, lookup, lookup-insert}
use omni_infra_provider_bare.Base.Int.{ℤ}
use omni_infra_provider_bare.Effects.{Done, Failure, Result, err, ok, unavailable}

-- The values of the machine id in the metadata of a tunnel's context, if it has metadata.
abbrev pub Metadata : Type 0
Metadata = Option (List String)

-- machineIDAffinityKey: the first value.
unfoldable pub machine_id_affinity_key : Metadata → Option String
machine_id_affinity_key none = none
machine_id_affinity_key (some []) = none
machine_id_affinity_key (some (id ∷ _)) = some id

-- The key that NewClient gives the tunnels.
unfoldable pub affinity_key : Metadata → String
unfolding machine_id_affinity_key
affinity_key md = elim (machine_id_affinity_key md) [ some id ↦ id | none ↦ "invalid" ]

abbrev with_tunnel : Option String → List (String × Done) → List (String × Done)
with_tunnel none machines = machines
with_tunnel (some id) machines = insert id tt machines

-- AllConnectedMachines, the loop over the tunnels.
unfoldable pub connected_from : List Metadata → List (String × Done) → List (String × Done)
unfolding machine_id_affinity_key
connected_from [] machines = machines
connected_from (md ∷ rest) machines =
    connected_from rest (with_tunnel (machine_id_affinity_key md) machines)

unfoldable pub all_connected_machines : List Metadata → List (String × Done)
unfolding connected_from
all_connected_machines tunnels = connected_from tunnels []

-- What controllers read from the set.
abbrev pub is_connected : List (String × Done) → String → Bool
is_connected machines id = is_some (lookup id machines)

-- IsAccessible, of the answer to Hello.
unfoldable pub is_accessible : Result Failure Done → Result Failure Bool
is_accessible (ok _) = ok true
is_accessible (err f) = elim f.code [ unavailable ↦ ok false | _ ↦ err f ]

-- type ClientOptions
pub record ClientOptions : Type 0 where
  pub wipe_with_zeroes : Bool
  pub call_timeout : ℤ
  pub fast_wipe_timeout : ℤ
  pub zeroes_wipe_timeout : ℤ

-- WipeDisks: the timeout of the call, and whether it asks for zeroes.
unfoldable pub wipe_disks : ClientOptions → ℤ × Bool
wipe_disks o =
    (if o.wipe_with_zeroes then o.zeroes_wipe_timeout else o.fast_wipe_timeout, o.wipe_with_zeroes)

-- type AgentConnectionEvent
pub record AgentConnectionEvent : Type 0 where
  pub machine_id : String
  pub connected : Bool

-- handleTunnelEvent: the event that is sent. The context may have ended before, or end while the channel
-- is full.
unfoldable pub handle_tunnel_event :
    Metadata → (connected has_ended ends_first : Bool) → Option AgentConnectionEvent
unfolding machine_id_affinity_key
handle_tunnel_event md connected has_ended ends_first = elim (machine_id_affinity_key md) [
  | none ↦ none
  | some id ↦
      if has_ended || ends_first
      then none
      else some (record { machine_id = id; connected = connected })
]

-- A tunnel of the machine.
abbrev pub has_tunnel : String → List Metadata → Bool
has_tunnel id [] = false
has_tunnel id (some (own ∷ _) ∷ rest) = str_eq own id || has_tunnel id rest
has_tunnel id (some [] ∷ rest) = has_tunnel id rest
has_tunnel id (none ∷ rest) = has_tunnel id rest

connected_from-has_tunnel :
    (id : String) (tunnels : List Metadata) (machines : List (String × Done))
    → is_connected (connected_from tunnels machines) id
      ≡ (has_tunnel id tunnels || is_connected machines id)
unfolding connected_from machine_id_affinity_key
connected_from-has_tunnel id [] machines = refl
connected_from-has_tunnel id (none ∷ rest) machines = connected_from-has_tunnel id rest machines
connected_from-has_tunnel id (some [] ∷ rest) machines = connected_from-has_tunnel id rest machines
connected_from-has_tunnel id (some (own ∷ more) ∷ rest) machines =
    let smaller = connected_from-has_tunnel id rest (insert own tt machines) in
    let inserted = lookup-insert own id tt machines in ground (arith, smaller, inserted)

-- A machine counts as connected exactly if there is a tunnel whose metadata has its id as the first
-- value; a tunnel without an id counts for none, whatever its key is.
pub all_connected_machines-has_tunnel :
    (id : String) (tunnels : List Metadata)
    → is_connected (all_connected_machines tunnels) id ≡ has_tunnel id tunnels
unfolding all_connected_machines lookup
all_connected_machines-has_tunnel id tunnels =
    let smaller = connected_from-has_tunnel id tunnels [] in ground (arith, smaller)
