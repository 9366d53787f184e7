-- ===== src/Server/Tests.antt =====
-- Which handler gets a request.
use omni_infra_provider_bare.Base.{refl, ◌≡◌}
use omni_infra_provider_bare.Server.{grpc_handler, http_handler, serve_http}

grpc_text : serve_http 2 "application/grpc+proto" ≡ grpc_handler
unfolding serve_http
grpc_text = refl

http_text : serve_http 1 "application/grpc" ≡ http_handler
unfolding serve_http
http_text = refl
