-- ===== src/Tls/Start.antt =====
-- What the API gets of this package at the provider's start.
use omni_infra_provider_bare.Tls.{
  CertificateAuthority, CertificateProvider, Certs, Crypto, Options, TlsConfig, and_then, init_ca,
  initialize, new_renewing_certificate_provider, renewing, with_provider,
}
use omni_infra_provider_bare.Tls.Laws.{IsLasting, SignsAsAsked, serve, serve-IsLasting}
use omni_infra_provider_bare.Effects.{Result-cases, ok}
use omni_infra_provider_bare.Base.{
  All, List, Option, String, ap, arith, eq_iff, inl, inr, sym, ◌∙◌, ◌≡◌,
}
use omni_infra_provider_bare.Base.Int.{ℤ}

provider_ca :
    (crypto : Crypto) (ca : CertificateAuthority) (host : String) (ttl : ℤ)
    (p : CertificateProvider)
    → new_renewing_certificate_provider crypto ca host ttl ≡ ok p
    → p.ca ≡ ca
unfolding new_renewing_certificate_provider
provider_ca crypto ca host ttl p h = ground (arith, h)

-- Without certificate files, there is an authority and a provider.
no_files :
    (crypto : Crypto) (host : String) (o : Options) (now later : ℤ) (read write : Option String)
    (config : Option TlsConfig)
    → o.ca_cert_file ≡ ""
    → o.cert_file ≡ ""
    → o.key_file ≡ ""
    → initialize crypto host o now later read write config ≡ (
      and_then
          (init_ca crypto now later o.ca_ttl read write config).0
          (with_provider crypto host o),
      (init_ca crypto now later o.ca_ttl read write config).1,
    )
unfolding initialize
no_files crypto host o now later read write config a b c =
    ground (arith, a, b, c, eq_iff o.ca_cert_file "", eq_iff o.cert_file "", eq_iff o.key_file "")

-- The provider that the API gets, without certificate files, tells its clients the authority that its
-- certificates are signed by, and presents to every request, whenever it comes, a certificate that is
-- valid for at least a tenth of the configured time to live after it, or an error of signing one.
pub initialize-IsLasting :
    (crypto : Crypto) (host : String) (o : Options) (now later : ℤ) (read write : Option String)
    (config config' : Option TlsConfig) (certs : Certs) (times : List ℤ)
    → SignsAsAsked crypto
    → o.ca_cert_file ≡ ""
    → o.cert_file ≡ ""
    → o.key_file ≡ ""
    → initialize crypto host o now later read write config ≡ (ok certs, config')
    → (p : CertificateProvider) × (certs.get_certificate_from ≡ renewing p)
      × (certs.ca_cert_pem ≡ p.ca.crt_pem)
      × All (IsLasting o.cert_ttl) (serve crypto p times)
initialize-IsLasting crypto host o now later read write config config' certs times signs a b c h =
    elim (Result-cases (init_ca crypto now later o.ca_ttl read write config).0) [
      | inr (e, i) ↦ absurd (ground (arith, made, i))
      | inl (ca, i) ↦
          elim (Result-cases (new_renewing_certificate_provider crypto ca host o.cert_ttl)) [
            | inr (e, n) ↦ absurd (ground (arith, made, i, n))
            | inl (p, n) ↦
                let same : certs
                    ≡ record { get_certificate_from = renewing p; ca_cert_pem = ca.crt_pem } =
                  ground (arith, made, i, n) in
                (
                  p,
                  ap (λ (x : Certs). x.get_certificate_from) same,
                  ap (λ (x : Certs). x.ca_cert_pem) same
                      ∙ ap (λ (x : CertificateAuthority). x.crt_pem)
                          (sym (provider_ca crypto ca host o.cert_ttl p n)),
                  serve-IsLasting crypto signs ca host o.cert_ttl p times n,
                )
          ]
    ]
  where
    made :
        and_then
          (init_ca crypto now later o.ca_ttl read write config).0
          (with_provider crypto host o)
        ≡ ok certs
    made = ap (λ x. x.0) (sym (no_files crypto host o now later read write config a b c) ∙ h)
