-- ===== src/Provider/Components/Tests.antt =====
-- The TFTP server ends without an error, and the other components follow.
use omni_infra_provider_bare.Base.{[], false, none, refl, some, suc, true, ℕ, ◌∷◌, ◌≡◌, ◌⊎◌}
use omni_infra_provider_bare.Provider.Components.{
  GoEvent, Group, Reach, cancels, components, cosi_runtime, dhcp_proxy, ended, go_at, go_step,
  group_step, next, returning, returns, running, server, start, started, tftp_server,
}
use omni_infra_provider_bare.Provider.Components.Steps.{left, names}
use omni_infra_provider_bare.Provider.Components.Laws.{Stops, stopped_together}

abbrev returned : Group
returned = record {
  goroutines =
      (cosi_runtime, running)
      ∷ (server, running)
      ∷ (tftp_server, returning none)
      ∷ (dhcp_proxy, running)
      ∷ [];
  is_canceled = false;
  error = none;
}

abbrev told : Group
told = record {
  goroutines =
      (cosi_runtime, running)
      ∷ (server, running)
      ∷ (tftp_server, ended none)
      ∷ (dhcp_proxy, running)
      ∷ [];
  is_canceled = true;
  error = none;
}

is_reached : Reach (components false) told
unfolding components started group_step go_at go_step
is_reached = next {g = returned} (next start (returns none) 2 refl) cancels 2 refl

stopped_together_example :
    (names told.goroutines ≡ components false)
    × ((told ≡ started (components false)) ⊎ (left told.goroutines ≡ 0) ⊎ Stops told)
    × ((event : GoEvent) (n : ℕ) (g' : Group)
        → group_step event n told ≡ some g'
        → suc (left g'.goroutines) ≡ left told.goroutines)
stopped_together_example = stopped_together false told is_reached
