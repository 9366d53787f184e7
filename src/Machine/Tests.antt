-- ===== src/Machine/Tests.antt =====
-- The boot mode of a concrete machine.
use omni_infra_provider_bare.Base.{false, some, true, ◌↔◌, ◌≡◌, ◌⊎◌}
use omni_infra_provider_bare.Machine.{is_installed, required_boot_mode, talos_pxe}
use omni_infra_provider_bare.Samples.{bmc1, disk_first, m1, w1}
use omni_infra_provider_bare.Machine.Laws.{IsCleared, required_boot_mode-talos_pxe_iff}

required_boot_mode-talos_pxe_iff_example :
    (required_boot_mode (some m1) (some bmc1) (some w1) disk_first ≡ talos_pxe) ↔ (
      IsCleared m1 (some bmc1) w1
      × ((is_installed (some m1) (some w1) ≡ false) ⊎ (disk_first.always_netboot ≡ true)))
required_boot_mode-talos_pxe_iff_example =
    required_boot_mode-talos_pxe_iff m1 (some bmc1) w1 disk_first
