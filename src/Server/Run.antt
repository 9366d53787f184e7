-- ===== src/Server/Run.antt =====
-- Run and shutdownOnCancel of internal/provider/server/server.go: the goroutines of the HTTP server and of the
-- TLS server, which there is if there are certificates, and the errgroup that they are in.
--
-- http.Server is read by its documentation: ListenAndServe returns only with an error, which is ErrServerClosed
-- once Shutdown has been called, unless the listener fails first; Shutdown returns, at its timeout at the latest.
pub mod Laws
mod Tests
use omni_infra_provider_bare.Base.{
  Bool, Option, String, false, if◌then◌else◌, none, some, true, ◌<>◌, ◌≡◌,
}

-- ListenAndServe: it serves, it is to return ErrServerClosed, or its goroutine has ended.
pub data Serve : Type 0 where
  serving closed served : Serve

-- shutdownOnCancel: it waits for the context, it is in Shutdown, or it has ended.
pub data Watch : Type 0 where
  awaiting shutting_down watched : Watch

pub record Lifecycle : Type 0 where
  pub serve : Serve
  pub watch : Watch

pub data ServerEvent : Type 0 where
  serve_fails : String → ServerEvent
  serve_closed shutdown_called : ServerEvent
  shutdown_returns : Option String → ServerEvent

pub data Which : Type 0 where
  http tls : Which

abbrev pub serve_failure : Which → String
serve_failure http = "failed to run server: "
serve_failure tls = "failed to run TLS server: "

-- What Shutdown makes of a server.
abbrev pub close : Serve → Serve
close serving = closed
close closed = closed
close served = served

-- ListenAndServe fails while it has not returned.
unfoldable pub serve_fail : Which → String → Serve → Watch → Option (Lifecycle × Option String)
serve_fail which text serving w =
    some (record { serve = served; watch = w }, some (serve_failure which <> text))
serve_fail which text closed w =
    some (record { serve = served; watch = w }, some (serve_failure which <> text))
serve_fail which text served w = none

-- ErrServerClosed is not an error of the goroutine.
unfoldable pub serve_close : Serve → Watch → Option (Lifecycle × Option String)
serve_close serving w = none
serve_close closed w = some (record { serve = served; watch = w }, none)
serve_close served w = none

-- Shutdown is called once the context is canceled.
unfoldable pub call_shutdown :
    (is_canceled : Bool) → Serve → Watch → Option (Lifecycle × Option String)
call_shutdown false s w = none
call_shutdown true s awaiting = some (record { serve = close s; watch = shutting_down }, none)
call_shutdown true s shutting_down = none
call_shutdown true s watched = none

abbrev pub shutdown_error : Option String → Option String
shutdown_error none = none
shutdown_error (some text) = some ("failed to shutdown HTTP server: " <> text)

unfoldable pub end_shutdown : Option String → Serve → Watch → Option (Lifecycle × Option String)
end_shutdown result s awaiting = none
end_shutdown result s shutting_down =
    some (record { serve = s; watch = watched }, shutdown_error result)
end_shutdown result s watched = none

-- What an event makes of a server, with the error that a goroutine returns; `none` if it cannot happen.
unfoldable pub server_step :
    Which → (is_canceled : Bool) → ServerEvent → Lifecycle → Option (Lifecycle × Option String)
unfolding serve_fail serve_close call_shutdown end_shutdown
server_step which c (serve_fails text) l = serve_fail which text l.serve l.watch
server_step which c serve_closed l = serve_close l.serve l.watch
server_step which c shutdown_called l = call_shutdown c l.serve l.watch
server_step which c (shutdown_returns result) l = end_shutdown result l.serve l.watch

-- The errgroup: the servers, whether its context is canceled, and the first error of a goroutine.
pub record ServerGroup : Type 0 where
  pub http_server : Lifecycle
  pub tls_server : Option Lifecycle
  pub is_canceled : Bool
  pub error : Option String

abbrev pub fresh : Lifecycle
fresh = record { serve = serving; watch = awaiting }

-- Run has started its goroutines.
unfoldable pub servers_started : (has_certs : Bool) → ServerGroup
servers_started has_certs = record {
  http_server = fresh;
  tls_server = if has_certs then some fresh else none;
  is_canceled = false;
  error = none;
}

abbrev pub first : Option String → String → String
first none text = text
first (some earlier) text = earlier

-- A goroutine of the group returns, or goes on if there is no error yet: errgroup keeps the first error, and
-- cancels the context with it.
unfoldable pub returned : Option String → ServerGroup → ServerGroup
returned none g = g
returned (some text) g = record g { is_canceled = true; error = some (first g.error text) }

pub data Event : Type 0 where
  parent_canceled : Event
  on : Which → ServerEvent → Event

unfoldable pub take_event : Event → ServerGroup → Option ServerGroup
unfolding server_step returned
take_event parent_canceled g = some (record g { is_canceled = true })
take_event (on http e) g = elim (server_step http g.is_canceled e g.http_server) [
  | none ↦ none
  | some (l, error) ↦ some (returned error (record g { http_server = l }))
]
take_event (on tls e) g = elim g.tls_server [
  | none ↦ none
  | some server ↦ elim (server_step tls g.is_canceled e server) [
    | none ↦ none
    | some (l, error) ↦ some (returned error (record g { tls_server = some l }))
  ]
]

-- The groups that Run can reach.
pub data Reach (has_certs : Bool) : ServerGroup → Type 0 where
  start : Reach has_certs (servers_started has_certs)
  next :
      {g g' : ServerGroup}
      → Reach has_certs g
      → (e : Event) → take_event e g ≡ some g'
      → Reach has_certs g'
