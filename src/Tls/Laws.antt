-- ===== src/Tls/Laws.antt =====
-- How long the certificates last that are presented.
use omni_infra_provider_bare.Tls.{
  CertOption, Certificate, CertificateAuthority, CertificateProvider, Crypto, TlsError,
  five_minutes, get_certificate, new_renewing_certificate_provider, not_after, not_before, renewed,
  should_renew, sign_failed, tenth,
}
use omni_infra_provider_bare.Effects.{Result, Result-cases, err, ok}
use mathlib.Core.Path.{Path, subst}
use omni_infra_provider_bare.Base.{
  All, Bool-cases, List, Option-cases, String, [], ap, arith, false, inl, inr, map, refl, some, sym,
  true, ◌++◌, ◌^◌, ◌∙◌, ◌∷◌, ◌≡◌,
}
use omni_infra_provider_bare.Base.Int.{ltb_ℤ, negsuc, pos, ℤ, ◌+ℤ◌, ◌-ℤ◌, ◌<ℤ◌, ◌≤ℤ◌}

abbrev pub one_second : ℤ
one_second = pos (10 ^ 9)

-- What X.509 keeps of a certificate's end: the time that is asked for, less than a second early.
unfoldable pub SignsAsAsked : Crypto → Type 0
SignsAsAsked crypto =
    (ca : CertificateAuthority) (opts : List CertOption) (start end : ℤ) (cert : Certificate)
    → crypto.new_key_pair ca (opts ++ (not_before start ∷ not_after end ∷ [])) ≡ ok cert
    → (end <ℤ (cert.leaf_not_after +ℤ one_second)) × (cert.leaf_not_after ≤ℤ end)

-- The requests at these times, one after the other, and their answers.
unfoldable pub serve :
    Crypto → CertificateProvider → List ℤ → List (ℤ × Result TlsError Certificate)
serve crypto p [] = []
serve crypto p (now ∷ times) =
    let (answer, p') = get_certificate crypto p now in (now, answer) ∷ serve crypto p' times

-- A certificate has a tenth of its time to live left when it is presented; and an error is one of
-- signing.
abbrev pub IsLasting : ℤ → ℤ × Result TlsError Certificate → Type 0
IsLasting ttl (now, ok cert) = tenth ttl ≤ℤ (cert.leaf_not_after -ℤ now)
IsLasting ttl (now, err e) = (text : String) × (e ≡ sign_failed text)

fresh_lasts :
    (ttl now end : ℤ)
    → five_minutes ≤ℤ ttl
    → (now +ℤ ttl) <ℤ (end +ℤ one_second)
    → tenth ttl ≤ℤ (end -ℤ now)
fresh_lasts (pos n) now end h k = ground arith
fresh_lasts (negsuc n) now end h k = absurd (ground arith)

kept_lasts : (ttl now end : ℤ) → ltb_ℤ (end -ℤ now) (tenth ttl) ≡ false → tenth ttl ≤ℤ (end -ℤ now)
kept_lasts ttl now end h = ground arith

-- A certificate that is not renewed is presented again, and has a tenth of its time left.
kept :
    (crypto : Crypto) (p : CertificateProvider) (now : ℤ)
    → should_renew p now ≡ false
    → (cert : Certificate) × (p.cert ≡ some cert)
      × (get_certificate crypto p now ≡ (ok cert, p))
      × (tenth p.cert_ttl ≤ℤ (cert.leaf_not_after -ℤ now))
unfolding get_certificate should_renew
kept crypto p now keep = elim (Option-cases p.cert) [
  | inl e ↦ absurd (ground (arith, keep, e))
  | inr (cert, e) ↦ (
    cert,
    e,
    rw (get_certificate, keep, e) refl,
    kept_lasts p.cert_ttl now cert.leaf_not_after (ground (arith, keep, e)),
  )
]

asked : CertificateProvider → ℤ → List CertOption
asked p now = p.opts ++ (not_before now ∷ not_after (now +ℤ p.cert_ttl) ∷ [])

module _ (crypto : Crypto) (signs : SignsAsAsked crypto) where
  renewed_lasts :
      (p : CertificateProvider) (now : ℤ) (made : Result String Certificate)
      → five_minutes ≤ℤ p.cert_ttl
      → crypto.new_key_pair p.ca (asked p now) ≡ made
      → IsLasting p.cert_ttl (now, (renewed p made).0) × ((renewed p made).1.cert_ttl ≡ p.cert_ttl)
  unfolding SignsAsAsked asked
  renewed_lasts p now (err text) long e = ((text, refl), refl)
  renewed_lasts p now (ok cert) long e = (
    fresh_lasts p.cert_ttl now cert.leaf_not_after long
        (signs p.ca p.opts now (now +ℤ p.cert_ttl) cert e).0,
    refl,
  )

  get_certificate-IsLasting :
      (p : CertificateProvider) (now : ℤ)
      → five_minutes ≤ℤ p.cert_ttl
      → IsLasting p.cert_ttl (now, (get_certificate crypto p now).0)
        × ((get_certificate crypto p now).1.cert_ttl ≡ p.cert_ttl)
  unfolding get_certificate asked
  get_certificate-IsLasting p now long = elim (Bool-cases (should_renew p now)) [
    | inl renew ↦
        rw (get_certificate, renew)
          (renewed_lasts p now (crypto.new_key_pair p.ca (asked p now)) long refl)
    | inr keep ↦ let (cert, _, e, left) = kept crypto p now keep in rw e (left, refl)
  ]

  serving :
      (p : CertificateProvider) (ttl : ℤ) (times : List ℤ)
      → five_minutes ≤ℤ ttl
      → p.cert_ttl ≡ ttl
      → All (IsLasting ttl) (serve crypto p times)
  unfolding serve
  serving p ttl [] long e = tt
  serving p ttl (now ∷ times) long e =
      let (lasting, same) = get_certificate-IsLasting p now (rw e long) in
      (
        subst (λ t. IsLasting t (now, (get_certificate crypto p now).0)) e lasting,
        serving (get_certificate crypto p now).1 ttl times long (same ∙ e),
      )

  -- Every request, whenever it comes, is answered with a certificate that is valid for at least a tenth
  -- of the certificates' time to live after the request, or with an error of signing a new one. That
  -- time is five minutes or more, which is what a provider is made with.
  pub serve-IsLasting :
      (ca : CertificateAuthority) (host : String) (cert_ttl : ℤ) (p : CertificateProvider)
      (times : List ℤ)
      → new_renewing_certificate_provider crypto ca host cert_ttl ≡ ok p
      → All (IsLasting cert_ttl) (serve crypto p times)
  unfolding new_renewing_certificate_provider
  serve-IsLasting ca host cert_ttl p times made =
      serving p cert_ttl times (ground (arith, made)) (ground (arith, made))

ok_injective : {E A : Type 0} (a b : A) → Path (Result E A) (ok a) (ok b) → a ≡ b
ok_injective a b h = ground (arith, h)

presented :
    (crypto : Crypto) (p : CertificateProvider) (cert : Certificate) (now : ℤ)
    → p.cert ≡ some cert
    → tenth p.cert_ttl ≤ℤ (cert.leaf_not_after -ℤ now)
    → get_certificate crypto p now ≡ (ok cert, p)
unfolding should_renew
presented crypto p cert now e h =
    let keep : should_renew p now ≡ false = rw (should_renew, e) (ground (arith, h)) in
    let (cert', e', same, _) = kept crypto p now keep in
    same ∙ ap (λ c. (ok c, p)) (ground (arith, e, e'))

kept_until :
    (crypto : Crypto) (p : CertificateProvider) (cert : Certificate) (times : List ℤ)
    → p.cert ≡ some cert
    → All (λ now. tenth p.cert_ttl ≤ℤ (cert.leaf_not_after -ℤ now)) times
    → serve crypto p times ≡ map (λ now. (now, ok cert)) times
unfolding serve
kept_until crypto p cert [] e h = refl
kept_until crypto p cert (now ∷ times) e h =
    rw (serve, presented crypto p cert now e h.0)
      (ap (λ l. (now, ok cert) ∷ l) (kept_until crypto p cert times e h.1))

within_life :
    (ttl first now end : ℤ)
    → five_minutes ≤ℤ ttl
    → (first +ℤ ttl) <ℤ (end +ℤ one_second)
    → ((now +ℤ tenth ttl) +ℤ one_second) ≤ℤ (first +ℤ ttl)
    → tenth ttl ≤ℤ (end -ℤ now)
within_life (pos n) first now end long made h = ground arith
within_life (negsuc n) first now end long made h = absurd (ground arith)

every_within_life :
    (ttl first end : ℤ) (times : List ℤ)
    → five_minutes ≤ℤ ttl
    → (first +ℤ ttl) <ℤ (end +ℤ one_second)
    → All (λ now. ((now +ℤ tenth ttl) +ℤ one_second) ≤ℤ (first +ℤ ttl)) times
    → All (λ now. tenth ttl ≤ℤ (end -ℤ now)) times
every_within_life ttl first end [] long made h = tt
every_within_life ttl first end (now ∷ times) long made h = (
  within_life ttl first now end long made h.0,
  every_within_life ttl first end times long made h.1,
)

-- The certificate that a request renewed is presented to every later request, without another
-- signature, until a tenth of the time to live, and the second that X.509 may take away, is left.
pub renewed_once :
    (crypto : Crypto) (p p' : CertificateProvider) (first : ℤ) (cert : Certificate) (times : List ℤ)
    → SignsAsAsked crypto
    → five_minutes ≤ℤ p.cert_ttl
    → should_renew p first ≡ true
    → get_certificate crypto p first ≡ (ok cert, p')
    → All (λ now. ((now +ℤ tenth p.cert_ttl) +ℤ one_second) ≤ℤ (first +ℤ p.cert_ttl)) times
    → serve crypto p' times ≡ map (λ now. (now, ok cert)) times
unfolding get_certificate SignsAsAsked asked
renewed_once crypto p p' first cert times signs long renew got within =
    elim (Result-cases (crypto.new_key_pair p.ca (asked p first))) [
      | inr (text, e) ↦ absurd (ground (arith, renew, got, e))
      | inl (made, e) ↦
          let after : CertificateProvider = record p { cert = some made } in
          let step : get_certificate crypto p first ≡ (ok made, after) =
            rw (get_certificate, renew, e) refl in
          let provider : p' ≡ after = ap (λ x. x.1) (sym got ∙ step) in
          let same : cert ≡ made = ok_injective cert made (ap (λ x. x.0) (sym got ∙ step)) in
          rw (provider, same)
            (kept_until crypto after made times refl (
              every_within_life p.cert_ttl first made.leaf_not_after times long
                (signs p.ca p.opts first (first +ℤ p.cert_ttl) made e).0 within))
    ]
