-- ===== src/Controllers/Common.antt =====
-- internal/provider/controllers/controllers.go: the acceptance guard and the cooldown clock.
pub mod Laws
mod Tests
use omni_infra_provider_bare.Base.{Option, String, if◌then◌else◌, leb, ltb, none, not, some, ℕ, ◌-◌}
use omni_infra_provider_bare.Base.Int.{negsuc, pos, sub_ℕ, two63, wrap64, ℤ, ◌+ℤ◌, ◌-ℤ◌}
use omni_infra_provider_bare.Resources.{InfraMachine, PowerOperation, RebootStatus}
use omni_infra_provider_bare.Machine.{is_accepted}
use omni_infra_provider_bare.Effects.{Done, Failure, M, Result, done, raise_if, skip, stop, ◌>>◌}

-- A read of a resource: what it found, or an error that is not "not found".
abbrev pub Read : Type 0 → Type 0
Read A = Result Failure (Option A)

-- `if x == nil { return skip }`
module _ {R : Type 0} where
  abbrev pub require : {A : Type 0} → Option A → String → M R A
  require (some a) reason w = done a w
  require none reason w = stop (skip reason) w

  unfoldable pub validate_infra_machine : InfraMachine → M R Done
  validate_infra_machine m = do
    raise_if (not (is_accepted m.acceptance_status)) (skip "machine not accepted")
    raise_if m.cordoned (skip "machine is cordoned")

-- A timestamp that is not set leaves Go's zero time.
abbrev time_of : Option ℕ → ℕ
time_of none = 0
time_of (some t) = t

abbrev pub power_on_time : Option PowerOperation → ℕ
power_on_time none = 0
power_on_time (some op) = time_of op.last_power_on_timestamp

abbrev pub reboot_time : Option RebootStatus → ℕ
reboot_time none = 0
reboot_time (some s) = time_of s.last_reboot_timestamp

-- The value of `lastPowerOnTime` at the end of getTimeSinceLastPowerOn.
abbrev pub last_boot_time : Option PowerOperation → Option RebootStatus → ℕ
last_boot_time op reboot =
    if ltb (power_on_time op) (reboot_time reboot) then reboot_time reboot else power_on_time op

-- time.Since: the difference, held in the range of an int64.
unfoldable pub since : ℕ → ℕ → ℤ
since now t =
    if leb two63 (now - t)
    then pos (two63 - 1)
    else if ltb two63 (t - now)
    then negsuc (two63 - 1)
    else sub_ℕ now t

unfoldable pub time_since_last_power_on : ℕ → Option PowerOperation → Option RebootStatus → ℤ
time_since_last_power_on now op reboot = since now (last_boot_time op reboot)

-- time.Second
abbrev pub second : ℕ
second = 1_000_000_000

-- `minRebootInterval - timeSinceLastPowerOn + time.Second`, in int64.
unfoldable pub cooldown_left : ℤ → ℤ → ℤ
cooldown_left interval elapsed = wrap64 (wrap64 (interval -ℤ elapsed) +ℤ pos second)
