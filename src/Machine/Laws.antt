-- ===== src/Machine/Laws.antt =====
-- Which way a machine boots, and when it is installed or needs a wipe.
use omni_infra_provider_bare.Base.{
  Option, arith, eq_iff, false, none, some, true, ◌↔◌, ◌≡◌, ◌≢◌, ◌⊎◌,
}
use omni_infra_provider_bare.Resources.{
  BmcConfiguration, InfraMachine, WipeStatus, accepted, rejected, running,
}
use omni_infra_provider_bare.Machine.{
  BootOptions, is_installed, required_boot_mode, requires_wipe, talos_disk, talos_pxe,
}

-- The wipe that a machine is due for has been done.
pub record IsWiped (m : InfraMachine) (w : WipeStatus) : Type 0 where
  pub initial : w.initial_wipe_done ≡ true
  pub current : m.wipe_id ≡ w.last_wipe_id

-- A machine is cleared to run Talos.
pub record IsCleared (m : InfraMachine) (bmc : Option BmcConfiguration) (w : WipeStatus)
    : Type 0 where
  pub accepted : m.acceptance_status ≡ accepted
  pub alive : m.phase ≡ running
  pub allocated : m.cluster_talos_version ≢ ""
  pub configured : bmc ≢ none
  pub wiped : IsWiped m w

pub requires_wipe_iff :
    (m : InfraMachine) (w : WipeStatus) → (requires_wipe (some m) (some w) ≡ false) ↔ IsWiped m w
unfolding requires_wipe
requires_wipe_iff m w = ground (arith, eq_iff m.wipe_id w.last_wipe_id)

-- For a machine and a wipe status that exist, the boot mode runs Talos over the network exactly when
-- the machine is cleared to run Talos (it is accepted, not being torn down and allocated to a cluster,
-- has a BMC configuration, and has had its current wipe) and is not handed to its disk, which happens
-- to an installed machine unless the provider always netboots.
pub required_boot_mode-talos_pxe_iff :
    (m : InfraMachine) (bmc : Option BmcConfiguration) (w : WipeStatus) (o : BootOptions)
    → (required_boot_mode (some m) bmc (some w) o ≡ talos_pxe)
      ↔ (IsCleared m bmc w × ((is_installed (some m) (some w) ≡ false) ⊎ (o.always_netboot ≡ true)))
unfolding required_boot_mode
required_boot_mode-talos_pxe_iff m bmc w o =
    ground (arith, eq_iff m.wipe_id w.last_wipe_id, eq_iff m.cluster_talos_version "")

-- The boot mode hands a machine to its disk exactly when the machine is rejected, or is cleared to
-- run Talos and installed while the provider does not always netboot.
pub required_boot_mode-talos_disk_iff :
    (m : InfraMachine) (bmc : Option BmcConfiguration) (w : WipeStatus) (o : BootOptions)
    → (required_boot_mode (some m) bmc (some w) o ≡ talos_disk) ↔ (
        (m.acceptance_status ≡ rejected)
        ⊎ (IsCleared m bmc w
            × (is_installed (some m) (some w) ≡ true)
            × (o.always_netboot ≡ false)))
unfolding required_boot_mode
required_boot_mode-talos_disk_iff m bmc w o =
    ground (arith, eq_iff m.wipe_id w.last_wipe_id, eq_iff m.cluster_talos_version "")
