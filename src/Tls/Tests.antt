-- ===== src/Tls/Tests.antt =====
-- A provider of certificates for a day, and two starts.
use omni_infra_provider_bare.Base.{
  All, List, String, [], arith, if◌then◌else◌, none, refl, some, ◌*◌, ◌++◌, ◌^◌, ◌||◌, ◌∷◌, ◌≡◌,
}
use omni_infra_provider_bare.Base.Int.{ltb_ℤ, pos, ℤ}
use omni_infra_provider_bare.Tls.{
  CertOption, CertificateAuthority, CertificateProvider, Crypto, Options, TlsConfig, common_name,
  dns_names, generate_ca, init_ca, initialize, key_usage_encipherment_and_signature,
  new_renewing_certificate_provider, not_after, not_before, organization, renewing,
}
use omni_infra_provider_bare.Tls.Laws.{IsLasting, SignsAsAsked, serve}
use omni_infra_provider_bare.Tls.Start.{initialize-IsLasting}
use omni_infra_provider_bare.Tls.Authority.{MakesAsAsked, restarted}
use omni_infra_provider_bare.Effects.{err, ok}

abbrev day : ℤ
day = pos (24 * 60 * 60 * 10 ^ 9)

abbrev year : ℤ
year = pos (365 * 24 * 60 * 60 * 10 ^ 9)

abbrev noon : ℤ
noon = pos (12 * 60 * 60 * 10 ^ 9)

abbrev end_of : CertOption → ℤ → ℤ
end_of (not_after end) _ = end
end_of _ end = end

-- The end that the last of the options asks for.
abbrev last_end : List CertOption → ℤ → ℤ
last_end [] end = end
last_end (o ∷ os) end = last_end os (end_of o end)

abbrev authority : CertificateAuthority
authority = record { crt_pem = "crt"; key_pem = "key"; crt_not_after = year }

abbrev stored : TlsConfig
stored = record { ca_cert = "crt"; ca_key = "key" }

abbrev host : String
host = "provider"

abbrev pem : ℤ → CertificateAuthority
pem end = record { crt_pem = "crt"; key_pem = "key"; crt_not_after = end }

-- Every authority ends after a year, and only such a one is made.
abbrev signer : Crypto
signer = record {
  new_self_signed = λ os.
      if ltb_ℤ (last_end os (pos 0)) year || ltb_ℤ year (last_end os (pos 0))
      then err "not a year"
      else ok authority;
  decode_authority = λ config. ok authority;
  new_key_pair = λ ca os. ok (record { chain = []; leaf_not_after = last_end os (pos 0) });
  parse_ip = λ host. none;
  read_file = λ name. err "no such file";
  x509_key_pair = λ crt key. err "no key pair";
  pem_decode = λ bytes. none;
  parse_certificate = λ bytes. ok bytes;
  verify_hostname = λ cert name. none;
  text_of = λ bytes. "";
}

last_end-append :
    (opts : List CertOption) (start end before : ℤ)
    → last_end (opts ++ (not_before start ∷ not_after end ∷ [])) before ≡ end
last_end-append [] start end before = refl
last_end-append (o ∷ os) start end before = last_end-append os start end (end_of o before)

signer_signs : SignsAsAsked signer
unfolding SignsAsAsked
signer_signs ca opts start end cert h =
    let asked = last_end-append opts start end (pos 0) in
    (ground (arith, h, asked), ground (arith, h, asked))

signer_makes : MakesAsAsked signer
unfolding MakesAsAsked
signer_makes start end ca h = (ground (arith, h), ground (arith, h))

abbrev fresh : CertificateProvider
fresh = record {
  ca = authority;
  opts =
      common_name "omni-infra-provider-bare-metal"
      ∷ organization "siderolabs"
      ∷ key_usage_encipherment_and_signature
      ∷ dns_names host
      ∷ [];
  cert_ttl = day;
  cert = none;
}

abbrev times : List ℤ
times = noon ∷ day ∷ []

abbrev options : Options
options = record { ca_cert_file = ""; cert_file = ""; key_file = ""; ca_ttl = year; cert_ttl = day }

-- There is no authority yet.
started :
    initialize signer host options (pos 0) (pos 0) none none none
    ≡ (ok (record { get_certificate_from = renewing fresh; ca_cert_pem = "crt" }), some stored)
unfolding initialize init_ca generate_ca new_renewing_certificate_provider
started = refl

initialize-IsLasting_example :
    (p : CertificateProvider) × (renewing fresh ≡ renewing p)
    × ("crt" ≡ p.ca.crt_pem)
    × All (IsLasting day) (serve signer p times)
initialize-IsLasting_example =
    initialize-IsLasting signer host options (pos 0) (pos 0) none none none (some stored)
      (record { get_certificate_from = renewing fresh; ca_cert_pem = "crt" }) times signer_signs
      refl refl refl started

restarted_example :
    init_ca signer noon noon day none none (some stored) ≡ (ok authority, (some stored))
unfolding init_ca generate_ca
restarted_example =
    restarted signer signer_makes (pos 0) (pos 0) year none none none (some stored) authority noon
      noon day none refl (ground arith)
