-- ===== src/Ipxe/Files/Laws.antt =====
-- Which boot files there are, and that the DHCP proxy offers no other.
use omni_infra_provider_bare.Base.{
  All, Bool, Bytes, List, String, [], ap, arith, eq_iff, inl, inr, is_some, join, refl, some,
  split_on, true, ℕ, ◌<>◌, ◌∙◌, ◌∷◌, ◌≡◌, ◌≢◌, ◌⊎◌,
}
use omni_infra_provider_bare.Base.Dict.{insert, lookup, lookup-insert}
use omni_infra_provider_bare.Effects.{Result-cases, ok}
use omni_infra_provider_bare.Dhcp.Packet.{
  Firmware, Packet, arm_efi, arm_http, rpi, unsupported, x86_efi, x86_http, x86_ipxe, x86_pc,
}
use omni_infra_provider_bare.Dhcp.Offer.{Response, ServerIp, offer_dhcp, url_host}
use omni_infra_provider_bare.Tftp.{request_name}
use omni_infra_provider_bare.Ipxe.Patch.{patch_bytes}
use omni_infra_provider_bare.Ipxe.Files.{
  Files, Row, Sources, add_undionly, arch_path, flat_name, patch_all, patch_binaries, patch_efi,
  rows,
}

abbrev pub is_served : String → Files → Bool
is_served name files = is_some (lookup name files)

is_served-insert :
    (name : String) (bytes : Bytes) (files : Files)
    → is_served name (insert name bytes files) ≡ true
is_served-insert name bytes files =
    ground (arith, lookup-insert name name bytes files, eq_iff name name)

is_served-kept :
    (name other : String) (bytes : Bytes) (files : Files)
    → is_served name files ≡ true
    → is_served name (insert other bytes files) ≡ true
is_served-kept name other bytes files h =
    ground (arith, lookup-insert other name bytes files, eq_iff other name, h)

module _ (sources : Sources) (script hash : Bytes) where
  pub efi_inserted :
      (row : Row) (files after : Files)
      → patch_efi sources script hash row files ≡ ok after
      → (b : Bytes) × (after ≡ insert (arch_path row) b (insert (flat_name row) b files))
  unfolding patch_efi
  efi_inserted row files after h =
      elim (Result-cases (sources.read_file ("data/" <> arch_path row))) [
        | inl (contents, e) ↦ elim (Result-cases (patch_bytes contents script hash)) [
          | inl (patched, e') ↦ (patched, ground arith)
          | inr (f, e') ↦ absurd (ground arith)
        ]
        | inr (f, e) ↦ absurd (ground arith)
      ]

  pub undionly_inserted :
      (files after : Files)
      → add_undionly sources script hash files ≡ ok after
      → (b : Bytes) × (after ≡ insert "undionly.kpxe.0" b (insert "undionly.kpxe" b files))
  unfolding add_undionly
  undionly_inserted files after h =
      elim (Result-cases (sources.read_file "data/amd64/kpxe/undionly.kpxe.bin")) [
        | inr (f, e) ↦ absurd (ground arith)
        | inl (bin, e) ↦
            elim (Result-cases (sources.read_file "data/amd64/kpxe/undionly.kpxe.zinfo")) [
              | inr (f, e') ↦ absurd (ground arith)
              | inl (zinfo, e') ↦ elim (Result-cases (patch_bytes bin script hash)) [
                | inr (f, p) ↦ absurd (ground arith)
                | inl (patched, p) ↦ elim (Result-cases (sources.compress patched zinfo)) [
                  | inr (f, c) ↦ absurd (ground arith)
                  | inl (compressed, c) ↦ (compressed, ground arith)
                ]
              ]
            ]
      ]

  -- What the files of a row add, and that no file goes.
  abbrev Adds : Row → Files → Files → Type 0
  Adds row files after =
      (is_served (flat_name row) after ≡ true)
      × (is_served (arch_path row) after ≡ true)
      × ((name : String) → is_served name files ≡ true → is_served name after ≡ true)

  efi-Adds :
      (row : Row) (files after : Files)
      → patch_efi sources script hash row files ≡ ok after
      → Adds row files after
  efi-Adds row files after h =
      let (b, e) = efi_inserted row files after h in
      let flat = insert (flat_name row) b files in
      (
        ap (is_served (flat_name row)) e
            ∙ is_served-kept (flat_name row) (arch_path row) b flat
                (is_served-insert (flat_name row) b files),
        ap (is_served (arch_path row)) e ∙ is_served-insert (arch_path row) b flat,
        λ name k.
            ap (is_served name) e
            ∙ is_served-kept name (arch_path row) b flat
                (is_served-kept name (flat_name row) b files k),
      )

  rows_served :
      (todo : List Row) (files after : Files)
      → patch_all sources script hash todo files ≡ ok after
      → All
          (λ row.
            (is_served (flat_name row) after ≡ true) × (is_served (arch_path row) after ≡ true))
          todo
        × ((name : String) → is_served name files ≡ true → is_served name after ≡ true)
  unfolding patch_all
  rows_served [] files after h = (tt, λ name k. ground (arith, h, k))
  rows_served (row ∷ rest) files after h =
      elim (Result-cases (patch_efi sources script hash row files)) [
        | inl (files', e) ↦
            let (flat, path, kept) = efi-Adds row files files' e in
            let (served, kept') = rows_served rest files' after (ground (arith, h, e)) in
            (
              ((kept' (flat_name row) flat, kept' (arch_path row) path), served),
              λ name k. kept' name (kept name k),
            )
        | inr (f, e) ↦ absurd (ground (arith, h, e))
      ]

  -- All names are there if the binaries could be patched.
  binaries_served :
      (files : Files)
      → patch_binaries sources script hash ≡ ok files
      → All
          (λ row.
            (is_served (flat_name row) files ≡ true) × (is_served (arch_path row) files ≡ true))
          rows
        × (is_served "undionly.kpxe" files ≡ true)
  unfolding patch_binaries
  binaries_served files h = elim (Result-cases (patch_all sources script hash rows [])) [
    | inr (f, e) ↦ absurd (ground (arith, h, e))
    | inl (efi, e) ↦
        let (b, e') = undionly_inserted efi files (ground (arith, h, e)) in
        let keep : (name : String) → is_served name efi ≡ true → is_served name files ≡ true =
          λ name k.
            ap (is_served name) e'
            ∙ is_served-kept name "undionly.kpxe.0" b (insert "undionly.kpxe" b efi)
                (is_served-kept name "undionly.kpxe" b efi k) in
        let efis = (rows_served rows [] efi e).0 in
        (
          (
            (keep _ efis.0.0, keep _ efis.0.1),
            (
              (keep _ efis.1.0.0, keep _ efis.1.0.1),
              (
                (keep _ efis.1.1.0.0, keep _ efis.1.1.0.1),
                ((keep _ efis.1.1.1.0.0, keep _ efis.1.1.1.0.1), tt),
              ),
            ),
          ),
          ap (is_served "undionly.kpxe") e'
              ∙ is_served-kept "undionly.kpxe" "undionly.kpxe.0" b (insert "undionly.kpxe" b efi)
                  (is_served-insert "undionly.kpxe" b efi),
        )
  ]

  -- Whatever is offered is there: if the binaries could be patched, every boot file that the DHCP proxy
  -- offers to a machine other than a Raspberry Pi is one of them, under a clean name, named as it is
  -- over TFTP, by its TFTP
  -- URL, or by its HTTP URL below /tftp/; and so is the one in the header, if the header names one.
  pub offered_is_served :
      (files : Files) (m : Packet) (ip : ServerIp) (fw : Firmware) (port : ℕ) (r : Response)
      → patch_binaries sources script hash ≡ ok files
      → offer_dhcp m ip fw port ≡ some r
      → fw ≢ rpi
      → (name : String) × (is_served name files ≡ true)
        × (request_name name ≡ name)
        × ((r.boot_file_option ≡ some name)
            ⊎ (r.boot_file_option ≡ some ("tftp://" <> url_host ip <> "/" <> name))
            ⊎ (r.boot_file_option ≡ some ("http://" <> ip.host_port <> "/tftp/" <> name)))
        × ((r.boot_file_name ≡ "") ⊎ (r.boot_file_name ≡ name))
  unfolding offer_dhcp request_name join split_on
  offered_is_served files m ip x86_pc port r h o n =
      ("undionly.kpxe", (binaries_served files h).1, refl, ground arith, ground arith)
  offered_is_served files m ip x86_ipxe port r h o n =
      ("undionly.kpxe", (binaries_served files h).1, refl, ground arith, ground arith)
  offered_is_served files m ip x86_efi port r h o n =
      ("snp.efi", (binaries_served files h).0.1.0.0, refl, ground arith, ground arith)
  offered_is_served files m ip arm_efi port r h o n =
      ("snp-arm64.efi", (binaries_served files h).0.1.1.1.0.0, refl, ground arith, ground arith)
  offered_is_served files m ip x86_http port r h o n =
      ("amd64/snp.efi", (binaries_served files h).0.1.0.1, refl, ground arith, ground arith)
  offered_is_served files m ip arm_http port r h o n =
      ("arm64/snp.efi", (binaries_served files h).0.1.1.1.0.1, refl, ground arith, ground arith)
  offered_is_served files m ip rpi port r h o n = absurd (n refl)
  offered_is_served files m ip unsupported port r h o n = absurd (ground (arith, o))
