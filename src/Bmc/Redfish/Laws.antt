-- ===== src/Bmc/Redfish/Laws.antt =====
-- When the Redfish client sets a PXE boot.
use omni_infra_provider_bare.Base.{
  Bool-cases, List, Option-cases, String, [], arith, eq_iff, inl, inr, none, refl, some, true, ◌<>◌,
  ◌↔◌, ◌∷◌, ◌≡◌, ◌≢◌, ◌⊎◌,
}
use omni_infra_provider_bare.Bmc.Redfish.{
  Answers, Boot, Client, OverrideMode, System, is_ami_future_state_error, on_first, override_mode,
  pxe_once, set_boot_ami_future_state, set_boot_or_future, set_pxe_boot_once, set_pxe_on,
  with_client, with_system,
}
use omni_infra_provider_bare.Effects.{PxeMode, Result, Result-cases, err, ok}

module _ (bmc : Answers) where
  -- That the BMC sets a boot: it does so at once; or it refuses with the AMI error, and then gives an
  -- ETag for the system's future state and takes a PATCH of it that must match the ETag.
  unfoldable pub IsAccepted : System → Boot → Type 0
  IsAccepted s boot =
      (bmc.setting_boot s boot ≡ none)
      ⊎ ((text : String) × (etag : String) × (bmc.setting_boot s boot ≡ some text)
          × (is_ami_future_state_error text ≡ true)
          × (bmc.getting (s.odata_id <> "/SD") ≡ ok etag)
          × (etag ≢ "")
          × (bmc.patching (s.odata_id <> "/SD") boot etag ≡ none))

  future_iff :
      (s : System) (boot : Boot)
      → ((set_boot_ami_future_state bmc s boot).1 ≡ ok tt) ↔ (
          (etag : String) × (bmc.getting (s.odata_id <> "/SD") ≡ ok etag)
          × (etag ≢ "")
          × (bmc.patching (s.odata_id <> "/SD") boot etag ≡ none))
  unfolding set_boot_ami_future_state
  future_iff s boot = (sets, given)
    where
      uri : String
      uri = s.odata_id <> "/SD"

      sets :
          (set_boot_ami_future_state bmc s boot).1 ≡ ok tt
          → (etag : String) × (bmc.getting (s.odata_id <> "/SD") ≡ ok etag)
            × (etag ≢ "")
            × (bmc.patching (s.odata_id <> "/SD") boot etag ≡ none)
      sets h = elim (Result-cases (bmc.getting (s.odata_id <> "/SD"))) [
        | inr (text, e) ↦ absurd (ground (arith, h, e))
        | inl (etag, e) ↦ (
          etag,
          e,
          λ empty. absurd (ground (arith, h, e, empty, eq_iff etag "")),
          elim (Option-cases (bmc.patching (s.odata_id <> "/SD") boot etag)) [
            | inl p ↦ p
            | inr (text, p) ↦ absurd (ground (arith, h, e, p))
          ],
        )
      ]

      given :
          (etag : String) × (bmc.getting (s.odata_id <> "/SD") ≡ ok etag)
            × (etag ≢ "")
            × (bmc.patching (s.odata_id <> "/SD") boot etag ≡ none)
          → (set_boot_ami_future_state bmc s boot).1 ≡ ok tt
      given (etag, e, some_etag, p) = ground (arith, e, p, eq_iff etag "", some_etag)

  accepted :
      (s : System) (boot : Boot) → (set_boot_or_future bmc s boot).1 ≡ ok tt → IsAccepted s boot
  unfolding set_boot_or_future IsAccepted
  accepted s boot h = elim (Option-cases (bmc.setting_boot s boot)) [
    | inl e ↦ inl e
    | inr (text, e) ↦ elim (Bool-cases (is_ami_future_state_error text)) [
      | inr other ↦ absurd (ground (arith, h, e, other))
      | inl ami ↦
          let future : (set_boot_ami_future_state bmc s boot).1 ≡ ok tt =
            ground (arith, h, e, ami) in
          let (etag, got, some_etag, patched) = (future_iff s boot).0 future in
          inr (text, etag, e, ami, got, some_etag, patched)
    ]
  ]

  accepting :
      (s : System) (boot : Boot) → IsAccepted s boot → (set_boot_or_future bmc s boot).1 ≡ ok tt
  unfolding set_boot_or_future IsAccepted
  accepting s boot (inl e) = rw (set_boot_or_future, e) refl
  accepting s boot (inr (text, etag, e, ami, got, some_etag, patched)) =
      rw (set_boot_or_future, e, ami) ((future_iff s boot).1 (etag, got, some_etag, patched))

  -- What has to hold for a PXE boot to be set once.
  unfoldable pub IsPxeSet : Client → PxeMode → Type 0
  IsPxeSet c mode =
      (bmc.connecting ≡ none)
      × (s : System) × (rest : List System) × (bmc.systems ≡ ok (s ∷ rest))
      × (m : OverrideMode) × (override_mode c mode ≡ ok m)
      × IsAccepted s (pxe_once m)

  -- A PXE boot is set exactly if the BMC is reached, it lists a system, the mode is one that the client
  -- may send, and the BMC takes, for the first system, a boot from PXE, once, in that mode: as asked,
  -- or, if it refuses that with the AMI error, as a PATCH of the future state, for which it gives an
  -- ETag.
  pub set_pxe_boot_once_iff :
      (c : Client) (mode : PxeMode) → ((set_pxe_boot_once bmc c mode).1 ≡ ok tt) ↔ IsPxeSet c mode
  unfolding set_pxe_boot_once with_client with_system IsPxeSet
  set_pxe_boot_once_iff c mode = (is_set, sets)
    where
      on_system :
          (s : System)
          → (set_pxe_on bmc c mode s).1 ≡ ok tt
          → (m : OverrideMode) × (override_mode c mode ≡ ok m) × IsAccepted s (pxe_once m)
      on_system s h = elim (Result-cases (override_mode c mode)) [
        | inr (text, e) ↦ absurd (ground (arith, h, e))
        | inl (m, e) ↦ (m, e, accepted s (pxe_once m) (ground (arith, h, e)))
      ]

      by_systems :
          (systems : Result String (List System))
          → bmc.systems ≡ systems
          → (on_first systems (set_pxe_on bmc c mode)).1 ≡ ok tt
          → (s : System) × (rest : List System) × (bmc.systems ≡ ok (s ∷ rest))
            × (m : OverrideMode) × (override_mode c mode ≡ ok m)
            × IsAccepted s (pxe_once m)
      by_systems (err text) e h = absurd (ground (arith, h))
      by_systems (ok []) e h = absurd (ground (arith, h))
      by_systems (ok (s ∷ rest)) e h =
          let (m, mode_ok, taken) = on_system s h in (s, rest, e, m, mode_ok, taken)

      is_set : (set_pxe_boot_once bmc c mode).1 ≡ ok tt → IsPxeSet c mode
      is_set h = elim (Option-cases bmc.connecting) [
        | inr (text, e) ↦ absurd (ground (arith, h, e))
        | inl e ↦
            let (s, rest, listed, m, mode_ok, taken) =
              by_systems bmc.systems refl (ground (arith, h, e)) in
            (e, s, rest, listed, m, mode_ok, taken)
      ]

      sets : IsPxeSet c mode → (set_pxe_boot_once bmc c mode).1 ≡ ok tt
      sets (e, s, rest, listed, m, mode_ok, taken) =
          rw (set_pxe_boot_once, with_client, e, with_system, listed, set_pxe_on, mode_ok)
            (accepting s (pxe_once m) taken)
