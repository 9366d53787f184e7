-- ===== src/Server/Run/Laws.antt =====
-- How the goroutines of the servers end.
use omni_infra_provider_bare.Base.{Bool, Option, none, some, suc, true, ℕ, ◌+◌, ◌≡◌, ◌⊎◌}
use omni_infra_provider_bare.Server.Run.{
  Event, Lifecycle, Serve, ServerEvent, ServerGroup, Watch, Which, awaiting, closed, on,
  parent_canceled, served, servers_started, serving, shutting_down, take_event, watched,
}

abbrev serve_left : Serve → ℕ
serve_left serving = 1
serve_left closed = 1
serve_left served = 0

abbrev watch_left : Watch → ℕ
watch_left awaiting = 2
watch_left shutting_down = 1
watch_left watched = 0

abbrev left_of : Lifecycle → ℕ
left_of l = serve_left l.serve + watch_left l.watch

abbrev left_of_tls : Option Lifecycle → ℕ
left_of_tls none = 0
left_of_tls (some l) = left_of l

-- The steps that the goroutines have before them: none if all have ended.
abbrev pub left : ServerGroup → ℕ
left g = left_of g.http_server + left_of_tls g.tls_server

-- Shutdown is not called, or the server does not serve.
abbrev IsShut : Serve → Watch → Type 0
IsShut s w = (w ≡ awaiting) ⊎ (s ≡ closed) ⊎ (s ≡ served)

abbrev Moves : Lifecycle → Lifecycle → Type 0
Moves l l' = (suc (left_of l') ≡ left_of l) × IsShut l'.serve l'.watch

-- Unless the context is canceled, all is as Run has started it.
record IsSound (has_certs : Bool) (g : ServerGroup) : Type 0 where
  as_started : (g.is_canceled ≡ true) ⊎ (g ≡ servers_started has_certs)
  http_shut : IsShut g.http_server.serve g.http_server.watch
  tls_shut : (l : Lifecycle) → g.tls_server ≡ some l → IsShut l.serve l.watch

-- What an event makes of a sound group.
record IsStep (has_certs : Bool) (e : Event) (g g' : ServerGroup) : Type 0 where
  told : g'.is_canceled ≡ true
  fewer : (e ≡ parent_canceled) ⊎ (suc (left g') ≡ left g)
  sound : IsSound has_certs g'

-- A goroutine can go on.
abbrev pub Proceeds : ServerGroup → Type 0
Proceeds g =
    (which : Which) × (e : ServerEvent) × (g' : ServerGroup) × (take_event (on which e) g ≡ some g')
