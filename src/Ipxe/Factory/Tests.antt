-- ===== src/Ipxe/Factory/Tests.antt =====
-- The image of a concrete machine.
use omni_infra_provider_bare.Base.{String, [], false, fields, none, refl, ◌++◌, ◌<>◌, ◌∷◌, ◌≡◌, ◌≢◌}
use omni_infra_provider_bare.Samples.{broken, disk_first, m1}
use omni_infra_provider_bare.Ipxe.{
  BootDecision, Handler, arm64, boot_via_factory, chain_script, console_kernel_args, ipxe_exit,
  status_ok,
}
use omni_infra_provider_bare.Ipxe.Factory.{
  Client, Omni, boot_as-media_request, schematic_ipxe_url, services,
}
use omni_infra_provider_bare.Effects.{Failure, Result, err, ok}
use omni_infra_provider_bare.Ipxe.Decision.{boot_as}

abbrev omni : Omni
omni = record {
  marshaling = λ request. none;
  ensure_installation_media = λ request. ok ("https://factory/" <> request.talos_version);
}

abbrev client : Client
client = record { agent_mode_talos_version = "1.10.0"; secure_boot_enabled = false }

abbrev handler : Handler
handler = record {
  boot_from_disk_method = ipxe_exit;
  default_kernel_args = "talos.config=http://p/config" ∷ [];
  agent_kernel_args = [];
  host_port = "p:50042";
  boot = disk_first;
  use_local_boot_assets = false;
}

abbrev no_asset : String → Result Failure String
no_asset name = err broken

abbrev chained : BootDecision
chained = record { body = chain_script "https://factory/1.9.0"; status_code = status_ok }

boot_as-media_request_example :
    (m1.cluster_talos_version ≢ "")
    × (url : String) × (omni.ensure_installation_media (record {
      talos_version = m1.cluster_talos_version;
      extensions = m1.extensions;
      extra_kernel_args =
          handler.default_kernel_args ++ (console_kernel_args arm64 ++ fields m1.extra_kernel_args);
      architecture = arm64;
      secure_boot = client.secure_boot_enabled;
    })
        ≡ ok url)
    × (chained ≡ record { body = chain_script url; status_code = status_ok })
unfolding boot_as boot_via_factory services schematic_ipxe_url fields
boot_as-media_request_example =
    boot_as-media_request omni client handler no_asset arm64 m1 chained refl
