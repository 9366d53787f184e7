-- ===== src/Provider/Start/Chain.antt =====
-- What has held of each step of Run when it has started the components.
use omni_infra_provider_bare.Base.{
  Bytes, List, Option, String, ap, arith, inl, inr, not, str_eq, ◌∙◌, ◌≡◌,
}
use omni_infra_provider_bare.Provider.Start.{
  RunOptions, Started, Surroundings, ca_of, check_start, connect_omni, handler_options, make_certs,
  new_handler, run, script_of, share,
}
use omni_infra_provider_bare.Provider.{boot_files, parse_labels}
use omni_infra_provider_bare.Ipxe.Files.{Files, patch_binaries}
use omni_infra_provider_bare.Ipxe.{BootFromDiskMethod, parse_boot_from_disk_method}
use omni_infra_provider_bare.Tls.{Certs, TlsConfig}
use omni_infra_provider_bare.Effects.{PxeMode, Result-cases, ok}
use omni_infra_provider_bare.Ipxe.Embedded.{compress_inline_config, custom_ca_hash}
use omni_infra_provider_bare.Ipxe.Setup.{kernel_args}
use omni_infra_provider_bare.MachineConfig.{build}

module _ (s : Surroundings) (o : RunOptions) where
  new_handler-ok :
      (address : String) (config : Bytes)
      (handler : BootFromDiskMethod × Files × List String × List String)
      → new_handler s o address config ≡ ok handler
      → (hash : Bytes) × (patch_binaries s.binaries (script_of s o address) hash ≡ ok handler.1)
  unfolding new_handler
  new_handler-ok address config handler h =
      elim (Result-cases (parse_boot_from_disk_method o.boot_from_disk_method)) [
        | inr (x, e₁) ↦ absurd (ground (arith, h, e₁))
        | inl (method, e₁) ↦
            elim (Result-cases (custom_ca_hash s.ca_files o.custom_ipxe_ca_cert_file)) [
              | inr (x, e₂) ↦ absurd (ground (arith, h, e₁, e₂))
              | inl (hash, e₂) ↦
                  elim (Result-cases (patch_binaries s.binaries (script_of s o address) hash)) [
                    | inr (x, e₃) ↦ absurd (ground (arith, h, e₁, e₂, e₃))
                    | inl (files, e₃) ↦
                        elim (Result-cases (
                          kernel_args
                            (record s.kernel_names {
                              inline_config = compress_inline_config s.encoder config;
                            })
                            (handler_options s o address))) [
                              | inr (x, e₄) ↦ absurd (ground (arith, h, e₁, e₂, e₃, e₄))
                              | inl (args, e₄) ↦
                                  (hash, e₃ ∙ ap ok (ground (arith, h, e₁, e₂, e₃, e₄)))
                            ]
                  ]
            ]
      ]

  pub share-ok :
      (mode : PxeMode) (address : String) (certs : Option Certs) (st : Started)
      → share s o mode address certs ≡ ok st
      → (hash : Bytes) × (ipxe : Files) × (patch_binaries s.binaries (script_of s o address) hash
          ≡ ok ipxe)
        × (boot_files s.firmware_dir o.provider ipxe ≡ ok st.files)
        × (st.serve_raspberry_pi ≡ not (str_eq o.provider.rpi_firmware_path ""))
  unfolding share
  share-ok mode address certs st h =
      elim (Result-cases (
        build s.kinds s.join_reads (ca_of s o certs) o.extra_machine_config_path
          s.extra_documents)) [
            | inr (x, e₁) ↦ absurd (ground (arith, h, e₁))
            | inl (config, e₁) ↦ elim (Result-cases (new_handler s o address config)) [
              | inr (x, e₂) ↦ absurd (ground (arith, h, e₁, e₂))
              | inl (handler, e₂) ↦ elim (Result-cases (parse_labels o.provider)) [
                | inr (x, e₃) ↦ absurd (ground (arith, h, e₁, e₂, e₃))
                | inl (labels, e₃) ↦
                    elim (Result-cases (boot_files s.firmware_dir o.provider handler.1)) [
                      | inr (x, e₄) ↦ absurd (ground (arith, h, e₁, e₂, e₃, e₄))
                      | inl (files, e₄) ↦
                          let (hash, patched) = new_handler-ok address config handler e₂ in
                          (
                            hash,
                            handler.1,
                            patched,
                            e₄ ∙ ap ok (ground (arith, h, e₁, e₂, e₃, e₄)),
                            ground (arith, h, e₁, e₂, e₃, e₄),
                          )
                    ]
              ]
            ]
          ]

  pub run-ok :
      (config config' : Option TlsConfig) (st : Started)
      → run s o config ≡ (ok st, config')
      → (mode : PxeMode) × (address : String) × (certs : Option Certs) × (share s o mode address
            certs
          ≡ ok st)
  unfolding run
  run-ok config config' st h = elim (Result-cases (check_start s o)) [
    | inr (e, c) ↦ absurd (ground (arith, h, c))
    | inl (found, c) ↦ elim (Result-cases (connect_omni s o)) [
      | inr (e, d) ↦ absurd (ground (arith, h, c, d))
      | inl (_, d) ↦ elim (Result-cases (make_certs s o found.1 config).0) [
        | inr (e, k) ↦ absurd (ground (arith, h, c, d, k))
        | inl (certs, k) ↦ (found.0, found.1, certs, ground (arith, h, c, d, k))
      ]
    ]
  ]
