-- ===== src/VirtualBmc/Hal.antt =====
-- internal/qemu/virtualbmc/hal.go: what a virtual BMC makes of the operations on its chassis and its network,
-- over the launcher's power API. HTTP and JSON are parameters, as for the provider's API client.
pub mod Laws
mod Tests
use omni_infra_provider_bare.Base.{
  Bool, Bytes, Option, String, false, if◌then◌else◌, none, not, some, ℕ, ◌<>◌, ◌==◌,
}
use omni_infra_provider_bare.Effects.{Done, Result, err, ok}
use omni_infra_provider_bare.Bmc.Api.{Http}
use omni_infra_provider_bare.Bmc.Backends.{get_method, post_method}

-- types.BootOptionParam_BootFlags: its device selector, and the rest of its fields.
pub record BootFlags : Type 0 where
  pub forces_pxe : Bool
  pub other_flags : Bytes

pub data HalError : Type 0 where
  request_failed : String → HalError
  bad_status : ℕ → HalError
  not_decoded : String → HalError
  not_supported : HalError

-- type chassisHAL: the flags that were set last. Its mutex makes an access to them one step.
pub record Chassis : Type 0 where
  pub base_url : String
  pub boot_flags : Option BootFlags

module _ (http : Http) where
  unfoldable pub post : Chassis → String → Result HalError Done
  post c path = elim (http.new_request post_method (c.base_url <> path)) [
    | some text ↦ err (request_failed text)
    | none ↦ elim (http.send post_method (c.base_url <> path)) [
      | err text ↦ err (request_failed text)
      | ok answer ↦
          if not (answer.status_code == 200) then err (bad_status answer.status_code) else ok tt
    ]
  ]

  unfoldable pub power_state : Chassis → Result HalError Bool
  power_state c = elim (http.new_request get_method (c.base_url <> "/status")) [
    | some text ↦ err (request_failed text)
    | none ↦ elim (http.send get_method (c.base_url <> "/status")) [
      | err text ↦ err (request_failed text)
      | ok answer ↦
          if not (answer.status_code == 200)
          then err (bad_status answer.status_code)
          else elim answer.decoded [ err text ↦ err (not_decoded text) | ok on ↦ ok on ]
    ]
  ]

  unfoldable pub set_power : Chassis → Bool → Result HalError Done
  unfolding post
  set_power c on = if on then post c "/poweron" else post c "/poweroff"

  -- PowerCycle, ColdReset and WarmReset
  unfoldable pub power_cycle : Chassis → Result HalError Done
  unfolding post
  power_cycle c = post c "/reboot"

  abbrev forces : Option BootFlags → Bool
  forces none = false
  forces (some flags) = flags.forces_pxe

  unfoldable pub set_boot_flags : Chassis → Option BootFlags → Chassis × Result HalError Done
  unfolding post
  set_boot_flags c flags =
      let c' : Chassis = record c { boot_flags = flags } in
      (c', if forces flags then post c' "/pxeboot" else ok tt)

unfoldable pub get_boot_flags : Chassis → Result HalError BootFlags
get_boot_flags c = elim c.boot_flags [ none ↦ err not_supported | some flags ↦ ok flags ]

-- Identify and SetBootInfoAcknowledge do nothing; IntrusionState, GetBootInfoAcknowledge and the SetConfig
-- of networkHAL are rejected.
unfoldable pub accepted_call : Result HalError Done
accepted_call = ok tt

unfoldable pub rejected_call : {A : Type 0} → Result HalError A
rejected_call = err not_supported

-- networkHAL's GetConfig: the configuration that it was made with.
unfoldable pub get_config : {A : Type 0} → A → Result HalError A
get_config cfg = ok cfg
