-- ===== src/Server.antt =====
-- internal/provider/server/server.go: the files that are served over HTTP, the routes, and which of the
-- handlers gets a request. http.ServeMux, http.StripPrefix and http.FileServer are parameters.
pub mod Laws
pub mod Run
mod Tests
use omni_infra_provider_bare.Base.{
  Bytes, List, Option, String, [], codes, has_prefix, if◌then◌else◌, none, not, some, str_eq, ℕ,
  ◌&&◌, ◌==◌, ◌∷◌,
}
use omni_infra_provider_bare.Base.Dict.{lookup}
use omni_infra_provider_bare.Tftp.{request_name}

-- filesHandler, with the path that http.StripPrefix leaves: the file, or "not found".
unfoldable pub files_handler : List (String × Bytes) → String → Option Bytes
files_handler files url_path = lookup (request_name url_path) files

pub data Target : Type 0 where
  grpc_handler http_handler : Target

-- multiHandler.ServeHTTP
unfoldable pub serve_http : (proto_major : ℕ) (content_type : String) → Target
serve_http proto_major content_type =
    if proto_major == 2 && has_prefix (codes "application/grpc") (codes content_type)
    then grpc_handler
    else http_handler

-- The handlers of NewMultiHandler's mux, with their patterns in the order of their registration.
pub data Route : Type 0 where
  config_route ipxe_route tftp_route assets_route : Route

-- constants.ConfigURLPath, constants.IPXEURLPath and constants.AssetsURLPath
abbrev pub pattern : Route → String
pattern config_route = "/config"
pattern ipxe_route = "/ipxe/{script}"
pattern tftp_route = "/tftp/"
pattern assets_route = "/assets/"

unfoldable pub routes : (assets_dir : String) → List Route
routes assets_dir =
    config_route
    ∷ ipxe_route
    ∷ tftp_route
    ∷ (if not (str_eq assets_dir "") then assets_route ∷ [] else [])

-- The route of the registered ones that http.ServeMux picks for a path, if any; and what is left of a path
-- below a prefix, or `none` if it has another one.
pub record Mux : Type 0 where
  pub handler_for : List Route → String → Option Route
  pub strip_prefix : String → String → Option String

pub data Answer : Type 0 where
  to_config to_ipxe no_file : Answer
  file : Bytes → Answer
  asset : String → Answer

abbrev file_or_not_found : Option Bytes → Answer
file_or_not_found none = no_file
file_or_not_found (some contents) = file contents

abbrev below : Option String → (String → Answer) → Answer
below none k = no_file
below (some path) k = k path

module _ (mux : Mux) (assets_dir : String) (files : List (String × Bytes)) where
  -- The handler of a route.
  unfoldable pub handle_route : Route → String → Answer
  unfolding files_handler
  handle_route config_route path = to_config
  handle_route ipxe_route path = to_ipxe
  handle_route tftp_route path =
      below (mux.strip_prefix (pattern tftp_route) path)
        λ rest. file_or_not_found (files_handler files rest)
  handle_route assets_route path =
      below (mux.strip_prefix (pattern assets_route) path) λ rest. asset rest

  -- The mux of NewMultiHandler.
  unfoldable pub serve_path : String → Answer
  unfolding handle_route
  serve_path path = elim (mux.handler_for (routes assets_dir) path) [
    | none ↦ no_file
    | some route ↦ handle_route route path
  ]
