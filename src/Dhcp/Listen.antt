-- ===== src/Dhcp/Listen.antt =====
-- Run and runServer of internal/provider/dhcp/proxy.go: the ports that the proxy listens on, and how it
-- ends. The sockets and the DHCP library's server are parameters.
pub mod Laws
use omni_infra_provider_bare.Base.{
  Bool, List, Option, String, [], if◌then◌else◌, map, none, not, some, ℕ, ◌++◌, ◌∷◌,
}
use omni_infra_provider_bare.Effects.{Result, err, ok}
use omni_infra_provider_bare.Dhcp.Packet.{port_4011}
use omni_infra_provider_bare.Dhcp.Interface.{InterfaceError}

-- const Port67
abbrev pub port_67 : ℕ
port_67 = 67

unfoldable pub ports : (disable_broadcast_listener : Bool) → List ℕ
ports disable_broadcast_listener =
    (if not disable_broadcast_listener then port_67 ∷ [] else []) ++ (port_4011 ∷ [])

-- How server.Serve ends: without an error, as its socket is closed, or with another error.
pub data Served : Type 0 where
  served closed : Served
  not_served : String → Served

pub data ListenError : Type 0 where
  no_interface : InterfaceError → ListenError
  not_created not_run : ℕ → String → ListenError
  not_closed : String → ListenError

-- The making of the server, its end, and its Close, which runs when the context is canceled.
pub record Sockets : Type 0 where
  pub new_server : String → ℕ → Option String
  pub serve : ℕ → Served
  pub close : ℕ → Option String

abbrev pub serve_error : ℕ → Served → Option ListenError
serve_error port served = none
serve_error port closed = none
serve_error port (not_served text) = some (not_run port text)

abbrev close_error : Option String → Option ListenError
close_error none = none
close_error (some text) = some (not_closed text)

module _ (sockets : Sockets) where
  -- The errors of the two goroutines of runServer, of which `wait` picks the one that came first.
  unfoldable pub run_server :
      (wait : Option ListenError → Option ListenError → Option ListenError)
      → String
      → ℕ
      → Option ListenError
  run_server wait iface port = elim (sockets.new_server iface port) [
    | some text ↦ some (not_created port text)
    | none ↦ wait (serve_error port (sockets.serve port)) (close_error (sockets.close port))
  ]

  -- The listeners that Run starts, each with its error, or Run's own error.
  unfoldable pub run_proxy :
      (wait : Option ListenError → Option ListenError → Option ListenError)
      → Result InterfaceError String
      → Bool
      → Result ListenError (List (ℕ × Option ListenError))
  unfolding run_server ports
  run_proxy wait (err e) off = err (no_interface e)
  run_proxy wait (ok iface) off = ok (map (λ port. (port, run_server wait iface port)) (ports off))
