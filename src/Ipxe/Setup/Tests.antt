-- ===== src/Ipxe/Setup/Tests.antt =====
-- The kernel arguments of a provider with TLS.
use omni_infra_provider_bare.Base.{List, String, [], false, refl, true, ◌++◌, ◌<>◌, ◌∷◌, ◌≡◌}
use omni_infra_provider_bare.Ipxe.Setup.{
  HandlerOptions, Names, agent_extra_args, config_arg, default_args, kernel_args, provider_address,
}
use omni_infra_provider_bare.Effects.{ok}

abbrev names : Names
names = record {
  join_host_port = λ host port. host <> ":50042";
  kernel_param_config = "talos.config";
  kernel_param_config_inline = "talos.config.inline";
  provider_address_arg = "metal.provider";
  test_mode_arg = "metal.test";
  tls_skip_verify_arg = "metal.skip";
  config_url_path = "config";
  inline_config = ok "KLUv";
}

abbrev options : HandlerOptions
options = record {
  api_advertise_address = "p";
  api_port = 50042;
  tls_enabled = true;
  tls_api_port = 50043;
  agent_test_mode = false;
  agent_skip_verify = true;
}

abbrev shared : List String
shared = "talos.config=http://p:50042/config?u=${uuid}" ∷ "talos.config.inline=KLUv" ∷ []

args_text :
    kernel_args names options
    ≡ ok (shared, shared ++ ("metal.provider=https://p:50042" ∷ "metal.skip=1" ∷ []))
unfolding kernel_args default_args config_arg agent_extra_args provider_address
args_text = refl
