-- ===== src/Provider/Start.antt =====
-- Run of internal/provider/provider.go up to the components that it starts: what is checked, in order, and
-- how the parts get what they share. What it calls of Omni's client and the runtime is a parameter.
mod NoBoard
pub mod Chain
pub mod Laws
pub mod Fetch
mod Samples
mod Tests
use omni_infra_provider_bare.Provider
use omni_infra_provider_bare.Tls
use omni_infra_provider_bare.Base.Int.{ℤ}
use omni_infra_provider_bare.Base.{
  Bool, Bytes, List, Option, String, codes, if◌then◌else◌, none, not, some, str_eq, ℕ,
}
use omni_infra_provider_bare.Provider.{
  Address, IpMethods, Options, StartError, Stat, boot_files, determine_api_advertise_address,
  parse_labels, validate_options,
}
use omni_infra_provider_bare.Provider.ClearState.{ClearError, ResourceStore, clear_state}
use omni_infra_provider_bare.Provider.Firmware.{Directory}
use omni_infra_provider_bare.Tls.{Certs, Crypto, Stored, TlsConfig, TlsError, initialize}
use omni_infra_provider_bare.MachineConfig.{BuildError, Document, JoinReads, Kinds, build}
use omni_infra_provider_bare.Ipxe.Setup.{
  Assets, HandlerOptions, Names, kernel_args, validate_boot_assets,
}
use omni_infra_provider_bare.Ipxe.Embedded.{
  CaError, CaFiles, Encoder, build_init_script, compress_inline_config, custom_ca_hash,
}
use omni_infra_provider_bare.Ipxe.Files.{Files, Sources, patch_binaries}
use omni_infra_provider_bare.Ipxe.{BootFromDiskMethod, parse_boot_from_disk_method}
use omni_infra_provider_bare.Bmc.Backends.{parse_boot_mode}
use omni_infra_provider_bare.Effects.{Done, Error, PxeMode, Result, err, ok}
use omni_infra_provider_bare.Ipxe.Decision.{boot_from_disk}

-- The options that Run reads itself, with those of the parts.
pub record RunOptions : Type 0 where
  pub provider : Provider.Options
  pub tls : Tls.Options
  pub tls_enabled : Bool
  pub tls_api_port : ℕ
  pub agent_skip_verify : Bool
  pub ipmi_pxe_boot_mode : String
  pub dhcp_proxy_iface_or_ip : String
  pub boot_from_disk_method : String
  pub extra_machine_config_path : String
  pub api_port : ℕ
  -- of the TLS options
  pub custom_ipxe_ca_cert_file : String
  pub clear_state : Bool

-- What Run finds: the file system, the network, Omni's client and runtime (an error of building them, of
-- registering the resources and of the provider's status), and what the parts call.
pub record Surroundings : Type 0 where
  pub stat : Stat
  pub assets : Assets
  pub net : IpMethods
  pub addresses : Result String (List Address)
  pub omni_client : Option String
  pub registering : Option String
  pub runtime : Option String
  pub resource_store : ResourceStore
  pub is_debug_build : Bool
  pub provider_status : Option String
  pub crypto : Crypto
  pub now : ℤ
  pub later : ℤ
  pub tls_read : Option String
  pub tls_write : Option String
  pub kinds : Kinds
  pub join_reads : JoinReads
  pub extra_documents : Result String (List Document)
  pub kernel_names : Names
  pub encoder : Encoder
  pub print_port : ℕ → String
  pub binaries : Sources
  pub ca_files : CaFiles
  pub firmware_dir : Directory

pub data RunError : Type 0 where
  bad_boot_mode bad_boot_method : Error → RunError
  bad_options : StartError → RunError
  bad_assets : List String → RunError
  omni_failed : String → RunError
  not_cleared : ClearError → RunError
  tls_failed : TlsError → RunError
  config_failed : BuildError → RunError
  handler_failed : String → RunError
  ca_failed : CaError → RunError

-- What the components share, once they are started.
pub record Started : Type 0 where
  pub pxe_boot_mode : PxeMode
  pub api_address : String
  pub dhcp_iface_or_ip : String
  pub certs : Option Certs
  pub machine_config : Bytes
  pub boot_from_disk : BootFromDiskMethod
  pub default_kernel_args : List String
  pub agent_kernel_args : List String
  pub labels : List (String × String)
  pub files : Files
  pub serves_local_assets : Bool
  pub serve_raspberry_pi : Bool

abbrev pub and_then :
    {A B : Type 0} → Result RunError A → (A → Result RunError B) → Result RunError B
and_then (ok a) k = k a
and_then (err e) k = err e

abbrev failing : {E A : Type 0} → (E → RunError) → Result E A → Result RunError A
failing e (ok a) = ok a
failing e (err x) = err (e x)

abbrev unless_failed : Option String → Result RunError Done
unless_failed none = ok tt
unless_failed (some text) = err (omni_failed text)

module _ (s : Surroundings) (o : RunOptions) where
  abbrev check_assets : Result RunError Done
  check_assets =
      if o.provider.use_local_boot_assets
      then failing bad_assets (validate_boot_assets s.assets)
      else ok tt

  -- From the first line to the address.
  unfoldable pub check_start : Result RunError (PxeMode × String)
  check_start = and_then (failing bad_boot_mode (parse_boot_mode o.ipmi_pxe_boot_mode)) λ mode.
      and_then (failing bad_options (validate_options s.stat o.provider mode)) λ _.
        and_then check_assets λ _.
          and_then
            (failing bad_options (determine_api_advertise_address s.net o.provider s.addresses))
            λ address. ok (mode, address)

  abbrev clear : Result RunError Done
  clear =
      if o.clear_state
      then failing not_cleared (clear_state s.resource_store s.is_debug_build).1
      else ok tt

  -- Omni's client, the registration, the runtime, and the state.
  unfoldable pub connect_omni : Result RunError Done
  connect_omni = and_then (unless_failed s.omni_client) λ _.
      and_then (unless_failed s.registering) λ _.
        and_then (unless_failed s.runtime) λ _. and_then clear λ _. unless_failed s.provider_status

  abbrev certs_from : Stored Certs → Result RunError (Option Certs) × Option TlsConfig
  certs_from (ok certs, config) = (ok (some certs), config)
  certs_from (err e, config) = (err (tls_failed e), config)

  -- The certificates, if TLS is enabled, and the stored resource.
  unfoldable pub make_certs :
      String → Option TlsConfig → Result RunError (Option Certs) × Option TlsConfig
  make_certs address config =
      if o.tls_enabled
      then certs_from
          (initialize s.crypto address o.tls s.now s.later s.tls_read s.tls_write config)
      else (ok none, config)

  abbrev ca_of : Option Certs → Option String
  ca_of none = none
  ca_of (some certs) = some certs.ca_cert_pem

  abbrev handler_options : String → HandlerOptions
  handler_options address = record {
    api_advertise_address = address;
    api_port = o.api_port;
    tls_enabled = o.tls_enabled;
    tls_api_port = o.tls_api_port;
    agent_test_mode = o.provider.agent_test_mode;
    agent_skip_verify = o.agent_skip_verify;
  }

  -- The bytes of the init script, whose text is ASCII as the address is.
  abbrev pub script_of : String → Bytes
  unfolding build_init_script
  script_of address = codes (build_init_script address (s.print_port o.api_port))

  -- NewHandler: the method, the patched files, and the kernel arguments.
  unfoldable pub new_handler :
      String → Bytes → Result RunError (BootFromDiskMethod × Files × List String × List String)
  new_handler address config =
      and_then (failing bad_boot_method (parse_boot_from_disk_method o.boot_from_disk_method))
        λ method.
          and_then (failing ca_failed (custom_ca_hash s.ca_files o.custom_ipxe_ca_cert_file))
            λ hash.
              and_then (failing handler_failed (patch_binaries s.binaries (script_of address) hash))
                λ files.
                  and_then
                    (failing handler_failed (
                      kernel_args
                        (record s.kernel_names {
                          inline_config = compress_inline_config s.encoder config;
                        })
                        (handler_options address)))
                    λ args. ok (method, files, args.0, args.1)

  -- From the machine's configuration to the components.
  unfoldable pub share : PxeMode → String → Option Certs → Result RunError Started
  unfolding new_handler
  share mode address certs =
      and_then
        (failing config_failed
          (build s.kinds s.join_reads (ca_of certs) o.extra_machine_config_path s.extra_documents))
        λ config. and_then (new_handler address config) λ handler.
          and_then (failing bad_options (parse_labels o.provider)) λ labels.
            and_then (failing bad_options (boot_files s.firmware_dir o.provider handler.1)) λ files.
              ok (record {
                pxe_boot_mode = mode;
                api_address = address;
                dhcp_iface_or_ip =
                    if str_eq o.dhcp_proxy_iface_or_ip ""
                    then address
                    else o.dhcp_proxy_iface_or_ip;
                certs = certs;
                machine_config = config;
                boot_from_disk = handler.0;
                default_kernel_args = handler.2;
                agent_kernel_args = handler.3;
                labels = labels;
                files = files;
                serves_local_assets = o.provider.use_local_boot_assets;
                serve_raspberry_pi = not (str_eq o.provider.rpi_firmware_path "");
              })

  -- Run, with the stored resource of the certificate authority.
  unfoldable pub run : Option TlsConfig → Result RunError Started × Option TlsConfig
  unfolding check_start connect_omni make_certs share
  run config = elim check_start [
    | err e ↦ (err e, config)
    | ok (mode, address) ↦ elim connect_omni [
      | err e ↦ (err e, config)
      | ok _ ↦
          let (certs, config') = make_certs address config in
          (and_then certs (share mode address), config')
    ]
  ]
