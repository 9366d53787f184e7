-- ===== src/Controllers/Common/Laws.antt =====
-- The cooldown clock.
use omni_infra_provider_bare.Base.{Option, arith, false, true, ℕ, ◌+◌, ◌-◌, ◌<◌, ◌≡◌, ◌≤◌}
use omni_infra_provider_bare.Base.Int.{ltb_ℤ, pos, two63}
use omni_infra_provider_bare.Resources.{PowerOperation, RebootStatus}
use omni_infra_provider_bare.Controllers.Common.{
  cooldown_left, last_boot_time, second, since, time_since_last_power_on,
}

since_lt :
    (clock last n : ℕ) → clock < last + n → n < two63 → ltb_ℤ (since clock last) (pos n) ≡ true
unfolding since
since_lt clock last n lt small = ground arith

since_ge :
    (clock last n : ℕ) → last + n ≤ clock → n < two63 → ltb_ℤ (since clock last) (pos n) ≡ false
unfolding since
since_ge clock last n le small = ground arith

-- Less than the interval has passed since a boot that is recorded.
pub in_cooldown :
    (clock : ℕ) (op : Option PowerOperation) (st : Option RebootStatus) (t n : ℕ)
    → t ≤ last_boot_time op st
    → clock < t + n
    → n < two63
    → ltb_ℤ (time_since_last_power_on clock op st) (pos n) ≡ true
unfolding time_since_last_power_on
in_cooldown clock op st t n le lt small =
    since_lt clock (last_boot_time op st) n (later (last_boot_time op st) le) small
  where
    later : (l : ℕ) → t ≤ l → clock < l + n
    later l h = omega arith

-- The interval has passed since the last boot that is recorded.
pub past_cooldown :
    (clock : ℕ) (op : Option PowerOperation) (st : Option RebootStatus) (n : ℕ)
    → last_boot_time op st + n ≤ clock
    → n < two63
    → ltb_ℤ (time_since_last_power_on clock op st) (pos n) ≡ false
unfolding time_since_last_power_on
past_cooldown clock op st n le small = since_ge clock (last_boot_time op st) n le small

cooldown_left_exact :
    (n e : ℕ) → e < n → n + second < two63 → cooldown_left (pos n) (pos e) ≡ pos (n - e + second)
unfolding cooldown_left
cooldown_left_exact n e lt small = ground arith

since_exact :
    (clock last n : ℕ)
    → last ≤ clock
    → clock < last + n
    → n < two63
    → since clock last ≡ pos (clock - last)
unfolding since
since_exact clock last n le lt small = ground arith

-- A requeue is late enough: a controller that is in the cooldown of a boot in the past asks to be
-- called again after a time at which the cooldown is over, with a second to spare.
pub requeue_suffices :
    (clock : ℕ) (op : Option PowerOperation) (st : Option RebootStatus) (n : ℕ)
    → last_boot_time op st ≤ clock
    → clock < last_boot_time op st + n
    → n + second < two63
    → (d : ℕ) × (cooldown_left (pos n) (time_since_last_power_on clock op st) ≡ pos d)
      × (last_boot_time op st + n + second ≡ clock + d)
      × (ltb_ℤ (time_since_last_power_on (clock + d) op st) (pos n) ≡ false)
unfolding time_since_last_power_on
requeue_suffices clock op st n le lt small = exact (last_boot_time op st) le lt
  where
    exact :
        (l : ℕ)
        → l ≤ clock
        → clock < l + n
        → (d : ℕ) × (cooldown_left (pos n) (since clock l) ≡ pos d)
          × (l + n + second ≡ clock + d)
          × (ltb_ℤ (since (clock + d) l) (pos n) ≡ false)
    exact l h k = (
      n - (clock - l) + second,
      rw (since_exact clock l n h k (omega arith))
          (cooldown_left_exact n (clock - l) (omega arith) small),
      omega arith,
      since_ge (clock + (n - (clock - l) + second)) l n (omega arith) (omega arith),
    )
