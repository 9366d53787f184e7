-- ===== src/Server/Run/Tests.antt =====
-- The TLS server cannot listen, and the HTTP server is shut down.
use omni_infra_provider_bare.Base.{some, true}
use omni_infra_provider_bare.Server.Run.{
  ServerGroup, awaiting, closed, fresh, served, shutting_down,
}

abbrev failed : ServerGroup
failed = record {
  http_server = fresh;
  tls_server = some (record { serve = served; watch = awaiting });
  is_canceled = true;
  error = some "failed to run TLS server: address in use";
}

abbrev closing : ServerGroup
closing = record failed { http_server = record { serve = closed; watch = shutting_down } }
