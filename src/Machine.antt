-- ===== src/Machine.antt =====
-- internal/provider/machine/machine.go: what a machine needs, decided from its resources. A resource
-- that does not exist is `none`.
pub mod Laws
mod Tests
use omni_infra_provider_bare.Base.{
  Bool, Option, false, if◌then◌else◌, is_some, ltb, none, not, some, str_eq, true, ℕ, ◌&&◌, ◌||◌,
}
use omni_infra_provider_bare.Resources.{
  AcceptanceStatus, BmcConfiguration, InfraMachine, Phase, PowerOperation, WipeStatus, accepted,
  pending, rejected, running, tearing_down,
}

-- type BootMode
pub data BootMode : Type 0 where
  agent_pxe talos_pxe talos_disk : BootMode

-- type BootOptions
pub record BootOptions : Type 0 where
  pub always_netboot : Bool

unfoldable pub is_manually_powered : Option BmcConfiguration → Bool
is_manually_powered none = false
is_manually_powered (some c) = c.manual

-- The value of `lastWipeInstallEventID`.
abbrev pub last_wipe_event : Option WipeStatus → ℕ
last_wipe_event none = 0
last_wipe_event (some w) = w.last_wipe_install_event_id

unfoldable pub is_installed : Option InfraMachine → Option WipeStatus → Bool
is_installed none wipe = false
is_installed (some m) wipe = ltb (last_wipe_event wipe) m.install_event_id

unfoldable pub requires_wipe : Option InfraMachine → Option WipeStatus → Bool
requires_wipe (some m) (some w) =
    if not w.initial_wipe_done then true else not (str_eq m.wipe_id w.last_wipe_id)
requires_wipe _ _ = true

-- `ClusterTalosVersion != ""`
abbrev pub is_allocated : InfraMachine → Bool
is_allocated m = not (str_eq m.cluster_talos_version "")

-- The three values that RequiredBootMode takes from the machine, with their defaults.
abbrev acceptance_of : Option InfraMachine → AcceptanceStatus
acceptance_of none = pending
acceptance_of (some m) = m.acceptance_status

abbrev pub is_tearing_down_phase : Phase → Bool
is_tearing_down_phase running = false
is_tearing_down_phase tearing_down = true

abbrev tearing_down_of : Option InfraMachine → Bool
tearing_down_of none = false
tearing_down_of (some m) = is_tearing_down_phase m.phase

abbrev allocated_of : Option InfraMachine → Bool
allocated_of none = false
allocated_of (some m) = is_allocated m

abbrev pub is_pending : AcceptanceStatus → Bool
is_pending pending = true
is_pending _ = false

abbrev pub is_rejected : AcceptanceStatus → Bool
is_rejected rejected = true
is_rejected _ = false

abbrev pub is_accepted : AcceptanceStatus → Bool
is_accepted accepted = true
is_accepted _ = false

unfoldable pub required_boot_mode :
    Option InfraMachine → Option BmcConfiguration → Option WipeStatus → BootOptions → BootMode
unfolding is_installed requires_wipe
required_boot_mode machine bmc wipe options =
    let agent =
      tearing_down_of machine
      || is_pending (acceptance_of machine)
      || not (allocated_of machine)
      || not (is_some bmc)
      || requires_wipe machine wipe in
    if is_rejected (acceptance_of machine)
    then talos_disk
    else if agent
    then agent_pxe
    else if is_installed machine wipe && not options.always_netboot
    then talos_disk
    else talos_pxe

unfoldable pub requires_pxe_boot : BootMode → Bool
requires_pxe_boot talos_disk = false
requires_pxe_boot _ = true

unfoldable pub requires_power_on : InfraMachine → Option WipeStatus → Bool
unfolding is_installed requires_wipe
requires_power_on m wipe =
    is_allocated m || is_installed (some m) wipe || requires_wipe (some m) wipe

unfoldable pub is_power_off_active : Option InfraMachine → Option PowerOperation → Bool
is_power_off_active (some m) (some op) =
    not (str_eq op.last_power_off_id "")
    && str_eq op.last_power_off_id m.power_off_request_id
    && str_eq op.wipe_id_at_power_off m.wipe_id
is_power_off_active _ _ = false
