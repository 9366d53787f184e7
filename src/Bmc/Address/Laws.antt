-- ===== src/Bmc/Address/Laws.antt =====
-- Which address is read.
use mathlib.Core.Path.{subst}
use omni_infra_provider_bare.Base.{
  Bool-cases, Bytes, List, String, [], any, ap, arith, eq_iff, inl, inr, length, refl, str_eq, suc,
  sym, true, ℕ, ◌∙◌, ◌∷◌, ◌≡◌, ◌≢◌,
}
use omni_infra_provider_bare.Bmc.Address.{
  LaunchConfig, StateDir, address_at, address_in, gateways_of, has_suffix, port_of,
  process_config_file, read_from, read_management_address,
}
use omni_infra_provider_bare.Effects.{Result-cases, ok}

module _ (dir : StateDir) (machine_id : String) where
  -- A file that gives the machine's address: a config file that can be read and parsed, has the
  -- machine's id, a gateway, of which the first one counts, and a port that is not 0.
  unfoldable pub Gives : String → String → Type 0
  Gives name addr =
      (has_suffix name ".config" ≡ true)
      × (data_read : Bytes) × (dir.read_file name ≡ ok data_read)
      × (conf : LaunchConfig) × (dir.unmarshal data_read ≡ ok conf)
      × (conf.node_uuid ≡ machine_id)
      × (gateway : String) × (rest : List String) × (gateways_of conf ≡ gateway ∷ rest)
      × (port_of conf ≢ 0)
      × (addr ≡ dir.join_host_port gateway (port_of conf))

  -- net.JoinHostPort puts a colon.
  unfoldable pub IsJoined : Type 0
  IsJoined = (gateway : String) (port : ℕ) → dir.join_host_port gateway port ≢ ""

  processed-Gives :
      (name addr : String)
      → has_suffix name ".config" ≡ true
      → process_config_file dir machine_id name ≡ ok addr
      → addr ≢ ""
      → Gives name addr
  unfolding process_config_file address_in Gives
  processed-Gives name addr suffix h nonempty = elim (Result-cases (dir.read_file name)) [
    | inr (text, r) ↦ absurd (ground (arith, h, r))
    | inl (read, r) ↦ elim (Result-cases (dir.unmarshal read)) [
      | inr (text, u) ↦ absurd (ground (arith, h, r, u))
      | inl (conf, u) ↦
          by_gateways read r conf u (gateways_of conf) refl
            (ground (arith, h, r, u, eq_iff conf.node_uuid machine_id, nonempty))
    ]
  ]
    where
      by_gateways :
          (read : Bytes)
          → dir.read_file name ≡ ok read
          → (conf : LaunchConfig) → dir.unmarshal read ≡ ok conf
          → (gs : List String) → gateways_of conf ≡ gs
          → (conf.node_uuid ≡ machine_id)
            × (address_at dir machine_id name (port_of conf) gs ≡ ok addr)
          → Gives name addr
      by_gateways read r conf u [] g (same, a) = absurd (ground (arith, a))
      by_gateways read r conf u (gateway ∷ rest) g (same, a) =
          (suffix, read, r, conf, u, same, gateway, rest, g, ground (arith, a), ground (arith, a))

  Gives-processed :
      (name addr : String) → Gives name addr → process_config_file dir machine_id name ≡ ok addr
  unfolding process_config_file address_in Gives
  Gives-processed name addr (suffix, read, r, conf, u, same, gateway, rest, g, port, a) =
      let there : address_in dir machine_id name conf ≡ ok addr =
        ground (arith, eq_iff conf.node_uuid machine_id, same, g, port, a) in
      rw (process_config_file, r, u) there

  -- A file that stands in the list gives that address.
  unfoldable pub IsGiven : List String → String → Type 0
  IsGiven names addr = (name : String) × (any (str_eq name) names ≡ true) × Gives name addr

  later_IsGiven :
      (name : String) (names : List String) (addr : String)
      → IsGiven names addr
      → IsGiven (name ∷ names) addr
  unfolding IsGiven
  later_IsGiven name names addr (other, mem, gives) = (other, ground (arith, mem), gives)

  read_from-given :
      (total n : ℕ) (names : List String) (addr : String)
      → read_from dir machine_id total n names ≡ ok addr
      → IsGiven names addr
  unfolding read_from IsGiven
  read_from-given total n [] addr h = absurd (ground (arith, h))
  read_from-given total n (name ∷ names) addr h = elim (Bool-cases (has_suffix name ".config")) [
    | inr other ↦
        later_IsGiven name names addr
          (read_from-given total n names addr (ground (arith, h, other)))
    | inl config ↦ elim (Result-cases (process_config_file dir machine_id name)) [
      | inr (e, p) ↦
          later_IsGiven name names addr
            (read_from-given total (suc n) names addr (ground (arith, h, config, p)))
      | inl (a, p) ↦ elim (Bool-cases (str_eq a "")) [
        | inl empty ↦
            later_IsGiven name names addr
              (read_from-given total (suc n) names addr (ground (arith, h, config, p, empty)))
        | inr full ↦
            let same : a ≡ addr = ground (arith, h, config, p, full) in
            let nonempty : addr ≢ "" = λ e. absurd (ground (arith, eq_iff a "", full, same ∙ e)) in
            (
              name,
              ground (arith, eq_iff name name),
              processed-Gives name addr config (p ∙ ap ok same) nonempty,
            )
      ]
    ]
  ]

  Gives-nonempty : (name addr : String) → IsJoined → Gives name addr → addr ≢ ""
  unfolding Gives IsJoined
  Gives-nonempty name addr joined (_, _, _, conf, _, _, gateway, _, _, _, a) e =
      joined gateway (port_of conf) (sym a ∙ e)

  Gives-config : (name addr : String) → Gives name addr → has_suffix name ".config" ≡ true
  unfolding Gives
  Gives-config name addr gives = gives.0

  given-read_from :
      (total n : ℕ) (names : List String) (name addr : String)
      → any (str_eq name) names ≡ true
      → has_suffix name ".config" ≡ true
      → process_config_file dir machine_id name ≡ ok addr
      → addr ≢ ""
      → (found : String) × (read_from dir machine_id total n names ≡ ok found)
  unfolding read_from
  given-read_from total n [] name addr mem config p full = absurd (ground (arith, mem))
  given-read_from total n (head ∷ names) name addr mem config p full =
      elim (Bool-cases (str_eq name head)) [
        | inl same ↦
            let e : name ≡ head = (eq_iff name head).0 same in
            (
              addr,
              rw (read_from, subst (λ x. process_config_file dir machine_id x ≡ ok addr) e p)
                  (rw (subst (λ x. has_suffix x ".config" ≡ true) e config)
                    (ground (arith, eq_iff addr "", full))),
            )
        | inr other ↦
            let rest : any (str_eq name) names ≡ true = ground (arith, mem, other) in
            let (f₁, e₁) = given-read_from total n names name addr rest config p full in
            let (f₂, e₂) = given-read_from total (suc n) names name addr rest config p full in
            elim (Bool-cases (has_suffix head ".config")) [
              | inr skipped ↦ (f₁, rw (read_from, skipped) e₁)
              | inl read ↦ elim (Result-cases (process_config_file dir machine_id head)) [
                | inr (text, r) ↦ (f₂, rw (read_from, read) (rw r e₂))
                | inl (a, r) ↦ elim (Bool-cases (str_eq a "")) [
                  | inl empty ↦ (f₂, rw (read_from, read) (rw r (rw empty e₂)))
                  | inr some_addr ↦ (a, rw (read_from, read) (rw r (rw some_addr refl)))
                ]
              ]
            ]
      ]

  start :
      (names : List String)
      → dir.read_dir ≡ ok names
      → read_management_address dir machine_id ≡ read_from dir machine_id (length names) 0 names
  unfolding read_management_address
  start names listed = ground (arith, listed)

  -- A machine's address is found whenever a file of the state directory gives one, whatever is wrong
  -- with the other files; and the address that is found is always one that a file gives.
  pub read_management_address-IsGiven :
      (names : List String) (addr : String)
      → IsJoined
      → dir.read_dir ≡ ok names
      → IsGiven names addr
      → (found : String) × (read_management_address dir machine_id ≡ ok found) × IsGiven names found
  unfolding IsGiven
  read_management_address-IsGiven names addr joined listed given =
      let (name, mem, gives) = given in
      let (found, e) =
        given-read_from (length names) 0 names name addr mem (Gives-config name addr gives)
          (Gives-processed name addr gives) (Gives-nonempty name addr joined gives) in
      (found, start names listed ∙ e, read_from-given (length names) 0 names found e)
