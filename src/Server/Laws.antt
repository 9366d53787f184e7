-- ===== src/Server/Laws.antt =====
-- The files over HTTP and over TFTP.
use omni_infra_provider_bare.Base.{Bytes, List, Option, String, ap, arith, refl, some, ◌<>◌, ◌≡◌}
use omni_infra_provider_bare.Base.Dict.{lookup}
use omni_infra_provider_bare.Tftp.{deliver, find_file, handle_read, request_name}
use omni_infra_provider_bare.Tftp.Laws.{found-deliver}
use omni_infra_provider_bare.Server.{
  Mux, file, files_handler, handle_route, routes, serve_path, tftp_route,
}

-- A file that is served over HTTP is served over TFTP under the same name.
pub files_handler-handle_read :
    (send : Bytes → Option String) (files : List (String × Bytes)) (name : String)
    (contents : Bytes)
    → files_handler files name ≡ some contents
    → handle_read send files name ≡ deliver send contents
unfolding files_handler find_file
files_handler-handle_read send files name contents h =
    found-deliver send files name contents (rw (find_file, h) refl)

-- A pattern that ends with a slash matches every path below it that http.ServeMux does not redirect: one
-- with no segment that is empty, a dot or two dots. No other pattern of the provider matches a path
-- below /tftp/; and http.StripPrefix leaves what is below the prefix.
pub record ServesSubtrees (mux : Mux) : Type 0 where
  pub handled :
      (assets_dir rest : String)
      → request_name rest ≡ rest
      → mux.handler_for (routes assets_dir) ("/tftp/" <> rest) ≡ some tftp_route
  pub stripped : (rest : String) → mux.strip_prefix "/tftp/" ("/tftp/" <> rest) ≡ some rest

-- A file of a clean name has a path below /tftp/.
pub serve_path-lookup :
    (mux : Mux) (assets_dir : String) (files : List (String × Bytes)) (name : String)
    (contents : Bytes)
    → ServesSubtrees mux
    → request_name name ≡ name
    → lookup name files ≡ some contents
    → serve_path mux assets_dir files ("/tftp/" <> name) ≡ file contents
unfolding serve_path handle_route files_handler
serve_path-lookup mux assets_dir files name contents tree clean found = ground (
  arith,
  tree.handled assets_dir name clean,
  tree.stripped name,
  clean,
  found,
  ap (λ n. lookup n files) clean,
)
