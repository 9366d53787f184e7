-- ===== src/Controllers/Common/Tests.antt =====
-- A cooldown that lasts.
use omni_infra_provider_bare.Base.{arith, false, none, some, ℕ, ◌+◌, ◌≡◌}
use omni_infra_provider_bare.Base.Int.{ltb_ℤ, pos}
use omni_infra_provider_bare.Samples.{r0}
use omni_infra_provider_bare.Controllers.Common.{
  cooldown_left, last_boot_time, second, time_since_last_power_on,
}
use omni_infra_provider_bare.Controllers.Common.Laws.{requeue_suffices}

requeue_suffices_example :
    (d : ℕ) × (cooldown_left (pos 1000) (time_since_last_power_on 1500 none (some r0)) ≡ pos d)
    × (last_boot_time none (some r0) + 1000 + second ≡ 1500 + d)
    × (ltb_ℤ (time_since_last_power_on (1500 + d) none (some r0)) (pos 1000) ≡ false)
requeue_suffices_example =
    requeue_suffices 1500 none (some r0) 1000 (omega arith) (omega arith) (omega arith)
