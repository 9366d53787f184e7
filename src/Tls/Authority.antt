-- ===== src/Tls/Authority.antt =====
-- The certificate authority, over the provider's starts.
use omni_infra_provider_bare.Base.{
  Bool-cases, List, Option, String, [], ap, arith, inl, inr, none, refl, some, true, ◌∙◌, ◌∷◌, ◌≡◌,
  ◌⊎◌,
}
use omni_infra_provider_bare.Base.Int.{ltb_ℤ, ℤ, ◌+ℤ◌, ◌<ℤ◌}
use omni_infra_provider_bare.Effects.{Result-cases, ok}
use omni_infra_provider_bare.Tls.{
  CertOption, CertificateAuthority, Crypto, TlsConfig, generate_ca, init_ca, not_after, not_before,
  organization,
}
use omni_infra_provider_bare.Tls.Laws.{one_second}

-- An authority is made with the end that is asked for, and decoding the texts of one that was made
-- gives it back.
unfoldable pub MakesAsAsked : Crypto → Type 0
MakesAsAsked crypto =
    (start end : ℤ) (ca : CertificateAuthority)
    → crypto.new_self_signed (organization "siderolabs" ∷ not_before start ∷ not_after end ∷ [])
      ≡ ok ca
    → (end <ℤ (ca.crt_not_after +ℤ one_second))
      × (crypto.decode_authority (record { ca_cert = ca.crt_pem; ca_key = ca.key_pem }) ≡ ok ca)

lt_ltb : (a b : ℤ) → a <ℤ b → ltb_ℤ a b ≡ true
lt_ltb a b h = ground arith

module _ (crypto : Crypto) (makes : MakesAsAsked crypto) where
  generated :
      (now ttl : ℤ) (write : Option String) (config config' : Option TlsConfig)
      (ca : CertificateAuthority)
      → generate_ca crypto now ttl write config ≡ (ok ca, config')
      → ((now +ℤ ttl) <ℤ (ca.crt_not_after +ℤ one_second))
        × ((stored : TlsConfig) × (config' ≡ some stored)
            × (crypto.decode_authority stored ≡ ok ca))
  unfolding generate_ca MakesAsAsked
  generated now ttl write config config' ca h =
      elim (Result-cases (crypto.new_self_signed request)) [
        | inr (text, e) ↦ absurd (ground (arith, h, e))
        | inl (made, e) ↦ by_write write h made e
      ]
    where
      request : List CertOption
      request = organization "siderolabs" ∷ not_before now ∷ not_after (now +ℤ ttl) ∷ []

      by_write :
          (write : Option String)
          → generate_ca crypto now ttl write config ≡ (ok ca, config')
          → (made : CertificateAuthority) → crypto.new_self_signed request ≡ ok made
          → ((now +ℤ ttl) <ℤ (ca.crt_not_after +ℤ one_second))
            × ((stored : TlsConfig) × (config' ≡ some stored)
                × (crypto.decode_authority stored ≡ ok ca))
      by_write (some text) h made e = absurd (ground (arith, h, e))
      by_write none h made e =
          let same : made ≡ ca = ground (arith, h, e) in
          let (late, decoded) = makes now (now +ℤ ttl) made e in
          rw⁻¹ same (
            late,
            (
              record { ca_cert = made.crt_pem; ca_key = made.key_pem },
              ground (arith, h, e),
              decoded,
            ),
          )

  -- An authority that a start gives is valid at that start, or new with the time to live that is asked
  -- for, up to a second; and the stored resource then holds it.
  started :
      (now later ttl : ℤ) (read write : Option String) (config config' : Option TlsConfig)
      (ca : CertificateAuthority)
      → init_ca crypto now later ttl read write config ≡ (ok ca, config')
      → ((now <ℤ ca.crt_not_after) ⊎ ((later +ℤ ttl) <ℤ (ca.crt_not_after +ℤ one_second)))
        × ((stored : TlsConfig) × (config' ≡ some stored)
            × (crypto.decode_authority stored ≡ ok ca))
  unfolding init_ca
  started now later ttl (some text) write config config' ca h = absurd (ground (arith, h))
  started now later ttl none write none config' ca h =
      let (late, kept) = generated later ttl write none config' ca h in (inr late, kept)
  started now later ttl none write (some config) config' ca h =
      elim (Result-cases (crypto.decode_authority config)) [
        | inr (text, e) ↦ absurd (ground (arith, h, e))
        | inl (found, e) ↦ elim (Bool-cases (ltb_ℤ now found.crt_not_after)) [
          | inl valid ↦
              let same : found ≡ ca = ground (arith, h, e, valid) in
              let kept : config' ≡ some config = ground (arith, h, e, valid) in
              (inl (rw⁻¹ same (ground (arith, valid))), (config, kept, e ∙ ap ok same))
          | inr expired ↦
              let (late, kept) =
                generated later ttl write (some config) config' ca
                  (ground (arith, h, e, expired)) in
              (inr late, kept)
        ]
      ]

  -- An authority outlives the provider: after a start that gave one, every later start before its end
  -- that can read the resource gives the same one and writes nothing.
  pub restarted :
      (now later ttl : ℤ) (read write : Option String) (config config' : Option TlsConfig)
      (ca : CertificateAuthority) (now' later' ttl' : ℤ) (write' : Option String)
      → init_ca crypto now later ttl read write config ≡ (ok ca, config')
      → now' <ℤ ca.crt_not_after
      → init_ca crypto now' later' ttl' none write' config' ≡ (ok ca, config')
  unfolding init_ca
  restarted now later ttl read write config config' ca now' later' ttl' write' h valid =
      let (_, (stored, e, decoded)) = started now later ttl read write config config' ca h in
      rw (e, init_ca, decoded, lt_ltb now' ca.crt_not_after valid) refl
