-- ===== src/Bmc/Redfish/Sessions.antt =====
-- What the Redfish client's sessions with a BMC are.
use omni_infra_provider_bare.Base.{
  Bool, Bool-cases, List, Option-cases, String, [], any, false, inl, inr, refl, str_eq, true, ◌++◌,
  ◌<>◌, ◌∷◌, ◌≡◌, ◌⊎◌,
}
use omni_infra_provider_bare.Bmc.Redfish.{
  Answers, Asked, Boot, Client, Request, System, connect, do_computer_system_reset, force_off_reset,
  force_restart_reset, is_ami_future_state_error, is_powered_on, logout, on_first, on_reset,
  override_mode, power_off, power_on, pxe_once, reboot, reset_boot, reset_boot_device, reset_system,
  set_boot_ami_future_state, set_boot_or_future, set_boot_with, set_pxe_boot_once, set_pxe_on,
  system_is_on, with_client, with_system,
}
use omni_infra_provider_bare.Bmc.Backends.{
  Operation, is_powered_on_op, power_off_op, power_on_op, reboot_op, reset_boot_device_op,
  set_pxe_boot_once_op,
}
use omni_infra_provider_bare.Effects.{Done, PxeMode, Result, Result-cases, err, ok}

abbrev pub is_session_end : Request → Bool
is_session_end connect = true
is_session_end logout = true
is_session_end _ = false

-- The requests of one session: a connection that fails, or one that a logout ends, the only one.
pub IsSession : List Request → Type 0
IsSession rs =
    (rs ≡ connect ∷ [])
    ⊎ ((inner : List Request) × (rs ≡ connect ∷ inner ++ (logout ∷ []))
        × (any is_session_end inner ≡ false))

abbrev IsInner : {A : Type 0} → Asked A → Type 0
IsInner asked = any is_session_end asked.0 ≡ false

-- The client's operations.
unfoldable pub perform : Answers → Client → Operation → Asked Done
perform bmc c reboot_op = reboot bmc
perform bmc c power_on_op = power_on bmc
perform bmc c power_off_op = power_off bmc
perform bmc c is_powered_on_op =
    let (rs, a) = is_powered_on bmc in (rs, elim a [ ok _ ↦ ok tt | err text ↦ err text ])
perform bmc c reset_boot_device_op = reset_boot_device bmc
perform bmc c (set_pxe_boot_once_op mode) = set_pxe_boot_once bmc c mode

module _ (bmc : Answers) where
  with_client-IsSession :
      {A : Type 0} (asked : Asked A) → IsInner asked → IsSession (with_client bmc asked).0
  unfolding with_client IsSession
  with_client-IsSession asked inner = elim (Option-cases bmc.connecting) [
    | inl e ↦ rw (with_client, e) (inr (asked.0, refl, inner))
    | inr (text, e) ↦ rw (with_client, e) (inl refl)
  ]

  on_first-IsInner :
      {A : Type 0} (systems : Result String (List System)) (f : System → Asked A)
      → ((s : System) → IsInner (f s))
      → IsInner (on_first systems f)
  on_first-IsInner (err text) f h = refl
  on_first-IsInner (ok []) f h = refl
  on_first-IsInner (ok (s ∷ rest)) f h = h s

  with_system-IsInner :
      {A : Type 0} (f : System → Asked A)
      → ((s : System) → IsInner (f s))
      → IsInner (with_system bmc f)
  unfolding with_system
  with_system-IsInner f h = on_first-IsInner bmc.systems f h

  set_boot_with-IsInner :
      (uri : String) (boot : Boot) (etag : String) → IsInner (set_boot_with bmc uri boot etag)
  set_boot_with-IsInner uri boot etag = elim (Bool-cases (str_eq etag "")) [
    | inl e ↦ rw e refl
    | inr e ↦ rw e refl
  ]

  future-IsInner : (s : System) (boot : Boot) → IsInner (set_boot_ami_future_state bmc s boot)
  unfolding set_boot_ami_future_state
  future-IsInner s boot = elim (Result-cases (bmc.getting (s.odata_id <> "/SD"))) [
    | inl (etag, e) ↦
        rw (set_boot_ami_future_state, e) (set_boot_with-IsInner (s.odata_id <> "/SD") boot etag)
    | inr (text, e) ↦ rw (set_boot_ami_future_state, e) refl
  ]

  set_boot-IsInner : (s : System) (boot : Boot) → IsInner (set_boot_or_future bmc s boot)
  unfolding set_boot_or_future
  set_boot-IsInner s boot = elim (Option-cases (bmc.setting_boot s boot)) [
    | inl e ↦ rw (set_boot_or_future, e) refl
    | inr (text, e) ↦ elim (Bool-cases (is_ami_future_state_error text)) [
      | inl ami ↦ rw (set_boot_or_future, e, ami) (future-IsInner s boot)
      | inr other ↦ rw (set_boot_or_future, e, other) refl
    ]
  ]

  pxe-IsInner : (c : Client) (mode : PxeMode) (s : System) → IsInner (set_pxe_on bmc c mode s)
  pxe-IsInner c mode s = elim (Result-cases (override_mode c mode)) [
    | inl (override, e) ↦ rw (set_pxe_on, e) (set_boot-IsInner s (pxe_once override))
    | inr (text, e) ↦ rw (set_pxe_on, e) refl
  ]

  -- Every operation is one session with the BMC: its first request connects, and if that succeeds, its
  -- last one logs out, whatever failed in between, and no other request does either.
  pub perform-IsSession : (c : Client) (op : Operation) → IsSession (perform bmc c op).0
  unfolding perform reboot power_on power_off is_powered_on reset_boot_device
      do_computer_system_reset set_pxe_boot_once
  perform-IsSession c reboot_op =
      with_client-IsSession (with_system bmc (reset_system bmc force_restart_reset))
        (with_system-IsInner (reset_system bmc force_restart_reset) (λ s. refl))
  perform-IsSession c power_on_op =
      with_client-IsSession (with_system bmc (reset_system bmc on_reset))
        (with_system-IsInner (reset_system bmc on_reset) (λ s. refl))
  perform-IsSession c power_off_op =
      with_client-IsSession (with_system bmc (reset_system bmc force_off_reset))
        (with_system-IsInner (reset_system bmc force_off_reset) (λ s. refl))
  perform-IsSession c is_powered_on_op =
      with_client-IsSession (with_system bmc (system_is_on bmc))
        (with_system-IsInner (system_is_on bmc) (λ s. refl))
  perform-IsSession c reset_boot_device_op =
      with_client-IsSession (with_system bmc (reset_boot bmc))
        (with_system-IsInner (reset_boot bmc) (λ s. refl))
  perform-IsSession c (set_pxe_boot_once_op mode) =
      with_client-IsSession (with_system bmc (set_pxe_on bmc c mode))
        (with_system-IsInner (set_pxe_on bmc c mode) (pxe-IsInner c mode))
