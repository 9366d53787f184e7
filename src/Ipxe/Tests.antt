-- ===== src/Ipxe/Tests.antt =====
-- The boot requests of concrete machines.
use omni_infra_provider_bare.Base.{String, [], false, some, true, ◌≡◌, ◌⊎◌}
use omni_infra_provider_bare.Machine.{is_installed}
use omni_infra_provider_bare.Effects.{err, ok}
use omni_infra_provider_bare.Samples.{bmc1, broken, disk_first, m1, w1}
use omni_infra_provider_bare.Machine.Laws.{IsCleared}
use omni_infra_provider_bare.Ipxe.{Handler, Reads, Schematic, Services, http_404}
use omni_infra_provider_bare.Ipxe.Laws.{talos_needs_clearance, with_talos}
use omni_infra_provider_bare.Ipxe.Decision.{make_boot_decision}

abbrev boot_script : String
boot_script = "boot.ipxe"

abbrev handler : Handler
handler = record {
  boot_from_disk_method = http_404;
  default_kernel_args = [];
  agent_kernel_args = [];
  host_port = "10.0.0.1:50042";
  boot = disk_first;
  use_local_boot_assets = false;
}

abbrev services : Services
services = record { schematic_ipxe_url = λ x. ok "http://factory/"; read_asset = λ n. err broken }

abbrev reads : Reads
reads = record { machine = ok (some m1); bmc = ok (some bmc1); wipe = ok (some w1) }

talos_needs_clearance_example :
    let r : Reads = record { machine = ok (some m1); bmc = ok (some bmc1); wipe = ok (some w1) } in
    (make_boot_decision handler (with_talos (λ (x : Schematic). err broken) services) "arm64" "m1" r
      ≡ make_boot_decision handler services "arm64" "m1" r)
    ⊎ (IsCleared m1 (some bmc1) w1
        × (m1.cordoned ≡ false)
        × ((is_installed (some m1) (some w1) ≡ false) ⊎ (handler.boot.always_netboot ≡ true)))
talos_needs_clearance_example =
    talos_needs_clearance handler services (λ (x : Schematic). err broken) "arm64" "m1" m1
      (some bmc1) w1
