-- ===== src/Bmc/Redfish/Tests.antt =====
-- A BMC that refuses a boot with the AMI error.
use omni_infra_provider_bare.Base.{[], contains, index, none, refl, some, true, ◌↔◌, ◌∷◌, ◌≡◌}
use omni_infra_provider_bare.Bmc.Redfish.{
  Answers, Client, System, connect, get_request, list_systems, logout, patch, pxe_once, set_boot,
  set_boot_ami_future_state, set_boot_or_future, set_pxe_boot_once, uefi_mode, with_client,
  with_system,
}
use omni_infra_provider_bare.Bmc.Redfish.Laws.{IsPxeSet, set_pxe_boot_once_iff}
use omni_infra_provider_bare.Bmc.Backends.{reboot_op}
use omni_infra_provider_bare.Effects.{ok, uefi}
use omni_infra_provider_bare.Bmc.Redfish.Sessions.{IsSession, perform, perform-IsSession}

abbrev client : Client
client = record {
  endpoint = "https://10.0.0.7:443";
  username = "u";
  password = "p";
  insecure = true;
  basic_auth = true;
  set_boot_source_override_mode = true;
}

abbrev node : System
node = record { odata_id = "/redfish/v1/Systems/Self"; is_on = true }

abbrev ami : Answers
ami = record {
  connecting = none;
  systems = ok (node ∷ []);
  resetting = λ s type. none;
  setting_boot = λ s boot. some "Ami.1.0.OperationSupportedInFutureStateURI";
  getting = λ uri. ok "etag";
  patching = λ uri boot etag. none;
}

future_text : set_pxe_boot_once ami client uefi ≡ (
  connect
      ∷ list_systems
      ∷ set_boot node (pxe_once uefi_mode)
      ∷ get_request "/redfish/v1/Systems/Self/SD"
      ∷ patch "/redfish/v1/Systems/Self/SD" (pxe_once uefi_mode) "etag"
      ∷ logout
      ∷ [],
  ok tt,
)
unfolding set_pxe_boot_once with_client with_system set_boot_or_future set_boot_ami_future_state
    contains index
future_text = refl

set_pxe_boot_once_iff_example :
    ((set_pxe_boot_once ami client uefi).1 ≡ ok tt) ↔ IsPxeSet ami client uefi
set_pxe_boot_once_iff_example = set_pxe_boot_once_iff ami client uefi

perform-IsSession_example : IsSession (perform ami client reboot_op).0
perform-IsSession_example = perform-IsSession ami client reboot_op
