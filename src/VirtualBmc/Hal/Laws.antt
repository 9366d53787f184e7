-- ===== src/VirtualBmc/Hal/Laws.antt =====
-- The provider's IPMI client with a virtual BMC, and its API client with the launcher, do the same.
use text.Mathlib.TextLemmas.{append_assoc as concat_assoc}
use omni_infra_provider_bare.Base.{Bool, Option, String, false, some, true, ◌<>◌, ◌≡◌}
use omni_infra_provider_bare.Effects.{Done, Result, err, ok}
use omni_infra_provider_bare.Bmc.Api.{Http}
use omni_infra_provider_bare.Bmc.Backends.{
  BiosBootType, IpmiRequest, chassis_control, force_pxe, no_override, power_cycle, power_down,
  power_up,
}
use omni_infra_provider_bare.VirtualBmc.Hal
use omni_infra_provider_bare.VirtualBmc.Hal.{
  BootFlags, Chassis, HalError, power_state, set_boot_flags, set_power,
}

-- The chassis of a launcher at an address.
abbrev pub chassis_at : String → Option BootFlags → Chassis
chassis_at address flags = record { base_url = "http://" <> address; boot_flags = flags }

-- The calls of the chassis that the IPMI library's server makes for a request.
pub data HalCall : Type 0 where
  power_state_call power_cycle_call : HalCall
  set_power_call : Bool → HalCall
  set_boot_flags_call : BootFlags → HalCall

-- The library follows the IPMI specification.
pub record FollowsIpmi (dispatch : IpmiRequest → HalCall) : Type 0 where
  pub cycled : dispatch (chassis_control power_cycle) ≡ power_cycle_call
  pub powered_up : dispatch (chassis_control power_up) ≡ set_power_call true
  pub powered_down : dispatch (chassis_control power_down) ≡ set_power_call false
  pub pointed :
      (t : BiosBootType)
      → (f : BootFlags) × (f.forces_pxe ≡ true) × (dispatch (force_pxe t) ≡ set_boot_flags_call f)
  pub released :
      (t : BiosBootType)
      → (f : BootFlags) × (f.forces_pxe ≡ false)
        × (dispatch (no_override t) ≡ set_boot_flags_call f)

abbrev pub without_value : {A : Type 0} → Result HalError A → Result HalError Done
without_value (ok _) = ok tt
without_value (err e) = err e

-- The chassis after a call, and how the call ends.
abbrev pub perform : Http → Chassis → HalCall → Chassis × Result HalError Done
perform http c power_state_call = (c, without_value (power_state http c))
perform http c power_cycle_call = (c, Hal.power_cycle http c)
perform http c (set_power_call on) = (c, set_power http c on)
perform http c (set_boot_flags_call f) = set_boot_flags http c (some f)

module _ (http : Http) (address : String) (flags : Option BootFlags)
    (dispatch : IpmiRequest → HalCall) (follows : FollowsIpmi dispatch) where
  abbrev pub performed : IpmiRequest → Chassis × Result HalError Done
  performed request = perform http (chassis_at address flags) (dispatch request)
