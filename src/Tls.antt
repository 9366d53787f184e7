-- ===== src/Tls.antt =====
-- internal/provider/tls/tls.go: the API's certificates. The cryptography and the files are parameters;
-- times are nanoseconds since 1970, durations are nanoseconds, and the clock's readings are arguments.
pub mod Laws
pub mod Start
pub mod Authority
mod Tests
use omni_infra_provider_bare.Base.{
  Bool, Bytes, List, Option, String, [], if◌then◌else◌, none, not, some, str_eq, suc, true, ◌*◌,
  ◌++◌, ◌/◌, ◌^◌, ◌||◌, ◌∷◌,
}
use omni_infra_provider_bare.Base.Int.{ltb_ℤ, negsuc, pos, sub_ℕ, ℤ, ◌+ℤ◌, ◌-ℤ◌}
use omni_infra_provider_bare.Effects.{Done, Result, err, ok}

-- type Options, the fields that this package reads
pub record Options : Type 0 where
  pub ca_cert_file : String
  pub cert_file : String
  pub key_file : String
  pub ca_ttl : ℤ
  pub cert_ttl : ℤ

-- A *tls.Certificate, of which the code reads the end of its leaf.
pub record Certificate : Type 0 where
  pub chain : Bytes
  pub leaf_not_after : ℤ

-- A *CertificateAuthority: the texts of its certificate and its key, and its certificate's end.
pub record CertificateAuthority : Type 0 where
  pub crt_pem : String
  pub key_pem : String
  pub crt_not_after : ℤ

-- The resource TLSConfig.
pub record TlsConfig : Type 0 where
  pub ca_cert : String
  pub ca_key : String

-- The options of a key pair.
pub data CertOption : Type 0 where
  common_name organization : String → CertOption
  key_usage_encipherment_and_signature : CertOption
  ip_addresses : Bytes → CertOption
  dns_names : String → CertOption
  not_before not_after : ℤ → CertOption

-- What is called of the cryptography libraries and of package net. A file's block is its PEM type and
-- its bytes.
pub record Crypto : Type 0 where
  pub new_self_signed : List CertOption → Result String CertificateAuthority
  pub decode_authority : TlsConfig → Result String CertificateAuthority
  pub new_key_pair : CertificateAuthority → List CertOption → Result String Certificate
  pub parse_ip : String → Option Bytes
  pub read_file : String → Result String Bytes
  pub x509_key_pair : Bytes → Bytes → Result String Certificate
  pub pem_decode : Bytes → Option (String × Bytes)
  pub parse_certificate : Bytes → Result String Bytes
  pub verify_hostname : Bytes → String → Option String
  pub text_of : Bytes → String

pub data TlsError : Type 0 where
  read_failed decode_failed generate_failed store_failed sign_failed : String → TlsError
  certificate_unreadable key_unreadable ca_unreadable key_pair_invalid parse_failed :
      String → TlsError
  wrong_host : String → TlsError
  no_pem no_host : TlsError
  ttl_too_short : ℤ → TlsError

abbrev and_then : {A B : Type 0} → Result TlsError A → (A → Result TlsError B) → Result TlsError B
and_then (ok a) k = k a
and_then (err e) k = err e

abbrev failing : {A : Type 0} → (String → TlsError) → Result String A → Result TlsError A
failing e (ok a) = ok a
failing e (err text) = err (e text)

-- The state: the stored resource. A write of it may fail.
abbrev pub Stored : Type 0 → Type 0
Stored A = Result TlsError A × Option TlsConfig

abbrev store : Option String → CertificateAuthority → Option TlsConfig → Stored CertificateAuthority
store none ca config = (ok ca, some (record { ca_cert = ca.crt_pem; ca_key = ca.key_pem }))
store (some text) ca config = (err (store_failed text), config)

module _ (crypto : Crypto) where
  -- generateCA, which updates the resource or creates it; `write` is the error of that.
  unfoldable pub generate_ca :
      (now ttl : ℤ) (write : Option String) → Option TlsConfig → Stored CertificateAuthority
  generate_ca now ttl write config =
      elim (crypto.new_self_signed
        (organization "siderolabs" ∷ not_before now ∷ not_after (now +ℤ ttl) ∷ [])) [
          | err text ↦ (err (generate_failed text), config)
          | ok ca ↦ store write ca config
        ]

  -- `read` is the error of reading the resource, other than that it is not there; the clock is read
  -- again for a new authority.
  unfoldable pub init_ca :
      (now later ttl : ℤ) (read write : Option String)
      → Option TlsConfig
      → Stored CertificateAuthority
  unfolding generate_ca
  init_ca now later ttl (some text) write config = (err (read_failed text), config)
  init_ca now later ttl none write none = generate_ca later ttl write none
  init_ca now later ttl none write (some config) = elim (crypto.decode_authority config) [
    | err text ↦ (err (decode_failed text), some config)
    | ok ca ↦
        if ltb_ℤ now ca.crt_not_after
        then (ok ca, some config)
        else generate_ca later ttl write (some config)
  ]

-- type renewingCertificateProvider; its mutex makes GetCertificate one step.
pub record CertificateProvider : Type 0 where
  pub ca : CertificateAuthority
  pub opts : List CertOption
  pub cert_ttl : ℤ
  pub cert : Option Certificate

abbrev pub five_minutes : ℤ
five_minutes = pos (5 * 60 * 10 ^ 9)

-- Go's division of an int64 by ten, which rounds towards zero.
abbrev pub tenth : ℤ → ℤ
tenth (pos n) = pos (n / 10)
tenth (negsuc n) = sub_ℕ 0 (suc n / 10)

abbrev host_option : Crypto → String → CertOption
host_option crypto host = elim (crypto.parse_ip host) [
  | some ip ↦ ip_addresses ip
  | none ↦ dns_names host
]

unfoldable pub new_renewing_certificate_provider :
    Crypto → CertificateAuthority → String → ℤ → Result TlsError CertificateProvider
new_renewing_certificate_provider crypto ca host cert_ttl =
    if str_eq host ""
    then err no_host
    else if ltb_ℤ cert_ttl five_minutes
    then err (ttl_too_short cert_ttl)
    else ok (record {
      ca = ca;
      opts =
          common_name "omni-infra-provider-bare-metal"
          ∷ organization "siderolabs"
          ∷ key_usage_encipherment_and_signature
          ∷ host_option crypto host
          ∷ [];
      cert_ttl = cert_ttl;
      cert = none;
    })

unfoldable pub should_renew : CertificateProvider → ℤ → Bool
should_renew p now = elim p.cert [
  | none ↦ true
  | some cert ↦ ltb_ℤ (cert.leaf_not_after -ℤ now) (tenth p.cert_ttl)
]

abbrev renewed :
    CertificateProvider
    → Result String Certificate
    → Result TlsError Certificate × CertificateProvider
renewed p (ok cert) = (ok cert, record p { cert = some cert })
renewed p (err text) = (err (sign_failed text), p)

-- Without a certificate, should_renew holds: the last case is not reached.
abbrev current : CertificateProvider → Result TlsError Certificate × CertificateProvider
current p = elim p.cert [ some cert ↦ (ok cert, p) | none ↦ (err (sign_failed ""), p) ]

unfoldable pub get_certificate :
    Crypto → CertificateProvider → ℤ → Result TlsError Certificate × CertificateProvider
unfolding should_renew
get_certificate crypto p now =
    if should_renew p now
    then renewed p
        (crypto.new_key_pair p.ca (p.opts ++ (not_before now ∷ not_after (now +ℤ p.cert_ttl) ∷ [])))
    else current p

-- type Certs: the text of the authority, and where certificates come from.
pub data CertSource : Type 0 where
  loaded_from_files : Certificate → CertSource
  renewing : CertificateProvider → CertSource

pub record Certs : Type 0 where
  pub get_certificate_from : CertSource
  pub ca_cert_pem : String

module _ (crypto : Crypto) (host : String) (o : Options) where
  abbrev check_pem : Bytes → Result TlsError Bytes
  check_pem cert_pem = elim (crypto.pem_decode cert_pem) [
    | none ↦ err no_pem
    | some (type, block) ↦
        if str_eq type "CERTIFICATE"
        then failing parse_failed (crypto.parse_certificate block)
        else err no_pem
  ]

  abbrev check_host : Bytes → Result TlsError Done
  check_host cert = elim (crypto.verify_hostname cert host) [
    | none ↦ ok tt
    | some text ↦ err (wrong_host text)
  ]

  abbrev read_ca : Result TlsError Bytes
  read_ca =
      if str_eq o.ca_cert_file ""
      then ok []
      else failing ca_unreadable (crypto.read_file o.ca_cert_file)

  unfoldable pub load_certs : Result TlsError Certs
  load_certs = and_then (failing certificate_unreadable (crypto.read_file o.cert_file)) λ cert_pem.
      and_then (failing key_unreadable (crypto.read_file o.key_file)) λ key_pem.
        and_then read_ca λ ca_pem.
          and_then (failing key_pair_invalid (crypto.x509_key_pair cert_pem key_pem)) λ cert.
            and_then (check_pem cert_pem) λ parsed. and_then (check_host parsed) λ _. ok (record {
              get_certificate_from = loaded_from_files cert;
              ca_cert_pem = crypto.text_of ca_pem;
            })

  abbrev with_provider : CertificateAuthority → Result TlsError Certs
  with_provider ca =
      and_then (new_renewing_certificate_provider crypto ca host o.cert_ttl)
        λ p. ok (record { get_certificate_from = renewing p; ca_cert_pem = ca.crt_pem })

  unfoldable pub initialize :
      (now later : ℤ) (read write : Option String) → Option TlsConfig → Stored Certs
  unfolding load_certs init_ca new_renewing_certificate_provider
  initialize now later read write config =
      if not (str_eq o.ca_cert_file "") || not (str_eq o.cert_file "") || not (str_eq o.key_file "")
      then (load_certs, config)
      else let (ca, config') = init_ca crypto now later o.ca_ttl read write config in
        (and_then ca with_provider, config')
