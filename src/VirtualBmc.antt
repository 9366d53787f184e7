-- ===== src/VirtualBmc.antt =====
-- internal/qemu/virtualbmc/virtualbmc.go: the sockets that New opens, and what becomes of them when it
-- fails. The network and the IPMI library are parameters.
pub mod Hal
mod Tests
use omni_infra_provider_bare.Base.{
  Bool, Bytes, List, Option, String, [], arith, false, if◌then◌else◌, ltb, none, not, some, str_eq,
  true, ℕ, ◌++◌, ◌||◌, ◌∷◌, ◌≡◌, ◌⊎◌,
}
use omni_infra_provider_bare.Effects.{Done, Result, err, ok}

-- type Options
pub record Options : Type 0 where
  pub bmc_ip : String
  pub vm_socket : String
  pub power_api_url : String
  pub max_users : ℕ

-- What is done with the sockets, in order.
pub data SocketStep : Type 0 where
  open_lan close_lan open_vm close_vm : SocketStep

-- How the system answers: the IP's bytes and its IPv4 form, the listeners' errors, whether the listener
-- has a UDP address, the removal of a stale socket (an error other than that it is not there), and the
-- seeding of the user.
pub record Host : Type 0 where
  pub parse_ip : String → Option Bytes
  pub to4 : Bytes → Option Bytes
  pub library_max_users : ℕ
  pub listen_udp : Bytes → Option String
  pub has_udp_address : Bool
  pub remove_stale : String → Option String
  pub listen_unix : String → Option String
  pub seed_admin : Option String

pub data NewError : Type 0 where
  no_power_api bad_max_users unexpected_address : NewError
  invalid_ipv4 not_ipv4 : String → NewError
  not_listening stale_socket vm_not_listening not_seeded : String → NewError

abbrev pub admin_user_slot : ℕ
admin_user_slot = 2

abbrev pub Opened : Type 0
Opened = List SocketStep × Result NewError Done

module _ (host : Host) (o : Options) where
  unfoldable pub parse_ipv4 : String → Result NewError Bytes
  parse_ipv4 s = elim (host.parse_ip s) [
    | none ↦ err (invalid_ipv4 s)
    | some ip ↦ elim (host.to4 ip) [ none ↦ err (not_ipv4 s) | some ip4 ↦ ok ip4 ]
  ]

  -- listenVMSocket: whether the socket is open, or the error.
  unfoldable pub listen_vm_socket : Result NewError Done
  listen_vm_socket = elim (host.remove_stale o.vm_socket) [
    | some text ↦ err (stale_socket text)
    | none ↦ elim (host.listen_unix o.vm_socket) [
      | some text ↦ err (vm_not_listening text)
      | none ↦ ok tt
    ]
  ]

  -- From the open sockets on: the user is seeded, or all of them are closed.
  abbrev seeded : (steps closing : List SocketStep) → Opened
  seeded steps closing = elim host.seed_admin [
    | none ↦ (steps, ok tt)
    | some text ↦ (steps ++ closing, err (not_seeded text))
  ]

  abbrev with_vm : Opened
  with_vm =
      if str_eq o.vm_socket ""
      then seeded (open_lan ∷ []) (close_lan ∷ [])
      else elim listen_vm_socket [
        | err e ↦ (open_lan ∷ close_lan ∷ [], err e)
        | ok _ ↦ seeded (open_lan ∷ open_vm ∷ []) (close_lan ∷ close_vm ∷ [])
      ]

  abbrev with_lan : Bytes → Opened
  with_lan ip = elim (host.listen_udp ip) [
    | some text ↦ ([], err (not_listening text))
    | none ↦
        if not host.has_udp_address
        then (open_lan ∷ close_lan ∷ [], err unexpected_address)
        else with_vm
  ]

  unfoldable pub new_server : Opened
  unfolding parse_ipv4 listen_vm_socket
  new_server =
      if str_eq o.power_api_url ""
      then ([], err no_power_api)
      else if ltb o.max_users admin_user_slot || ltb host.library_max_users o.max_users
      then ([], err bad_max_users)
      else elim (parse_ipv4 o.bmc_ip) [ err e ↦ ([], err e) | ok ip ↦ with_lan ip ]

-- The sockets that are open after the steps.
unfoldable pub open_after : List SocketStep → (lan vm : Bool) → Bool × Bool
open_after [] lan vm = (lan, vm)
open_after (open_lan ∷ rest) lan vm = open_after rest true vm
open_after (close_lan ∷ rest) lan vm = open_after rest false vm
open_after (open_vm ∷ rest) lan vm = open_after rest lan true
open_after (close_vm ∷ rest) lan vm = open_after rest lan false

-- No socket leaks: when New fails, whatever failed, no socket is open; and when it does not, the LAN
-- socket is open, and the socket for the VM protocol exactly if one is configured.
pub sockets_closed :
    (host : Host) (o : Options)
    → (((e : NewError) × ((new_server host o).1 ≡ err e))
        × (open_after (new_server host o).0 false false ≡ (false, false)))
      ⊎ (((new_server host o).1 ≡ ok tt)
          × (open_after (new_server host o).0 false false ≡ (true, not (str_eq o.vm_socket ""))))
unfolding new_server parse_ipv4 listen_vm_socket open_after
sockets_closed host o = ground arith
