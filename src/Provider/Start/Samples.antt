-- ===== src/Provider/Start/Samples.antt =====
-- The surroundings of a start with the firmware of a Raspberry Pi, for the tests. No code of the program is
-- modelled here.
use omni_infra_provider_bare.Base.{
  Bytes, List, Option, String, [], codes, false, none, some, suc, true, zero, ℕ, ◌++◌, ◌<>◌, ◌∷◌,
}
use Prim.Native.Nat.{ℕ, zero, suc}
use omni_infra_provider_bare.Base.Int.{pos}
use omni_infra_provider_bare.Provider.Start.{RunError, RunOptions, Started, Surroundings, run}
use omni_infra_provider_bare.Provider.{ip_net}
use omni_infra_provider_bare.Provider.Firmware.{Entry}
use omni_infra_provider_bare.Ipxe.{ipxe_exit}
use omni_infra_provider_bare.Tls.{Crypto, TlsConfig}
use omni_infra_provider_bare.Effects.{Result, err, ok, uefi}
use omni_infra_provider_bare.Ipxe.Decision.{}

abbrev pub entry : String → Entry
entry name = record {
  name = name;
  is_dir = false;
  info = ok (record { is_regular = true; size = 3 });
}

abbrev pub entries : List Entry
entries = entry "config.txt" ∷ entry "fixup4.dat" ∷ entry "start4.elf" ∷ []

abbrev pub spaces : ℕ → Bytes
spaces zero = []
spaces (suc n) = b' ' ∷ spaces n

abbrev pub binary : Bytes
binary = codes "a# *PLACEHOLDER START*" ++ (spaces 1500 ++ codes "# *PLACEHOLDER END*b")

abbrev pub no_crypto : Crypto
no_crypto = record {
  new_self_signed = λ os. err "off";
  decode_authority = λ config. err "off";
  new_key_pair = λ ca os. err "off";
  parse_ip = λ host. none;
  read_file = λ name. err "off";
  x509_key_pair = λ crt key. err "off";
  pem_decode = λ bytes. none;
  parse_certificate = λ bytes. err "off";
  verify_hostname = λ cert name. none;
  text_of = λ bytes. "";
}

abbrev pub here : Surroundings
here = record {
  stat = λ path. ok true;
  assets = λ name. err "no such file";
  net = record {
    is_loopback = λ ip. false;
    is_link_local_unicast = λ ip. false;
    is_link_local_multicast = λ ip. false;
    is_multicast = λ ip. false;
    is_unspecified = λ ip. false;
    to4 = λ ip. some ip;
    to_string = λ ip. "10.0.0.1";
  };
  addresses = ok (ip_net (10 ∷ 0 ∷ 0 ∷ 1 ∷ []) ∷ []);
  omni_client = none;
  registering = none;
  runtime = none;
  resource_store = record { listings = []; getting = λ id. none; destroying = λ id. none };
  is_debug_build = false;
  provider_status = none;
  crypto = no_crypto;
  now = pos 0;
  later = pos 0;
  tls_read = none;
  tls_write = none;
  kinds = record {
    v1alpha1_version = "v1alpha1";
    siderolink_kind = "SideroLinkConfig";
    event_sink_kind = "EventSinkConfig";
    kmsg_log_kind = "KmsgLogConfig";
    trusted_roots_config = "TrustedRootsConfig";
  };
  join_reads = record {
    defines_join_config = ok false;
    join_config = err "none";
    load_config = λ text. err "none";
    connection_params = ok "params";
    render_join_config = λ params docs. ok [];
    encode = λ docs. err "none";
  };
  extra_documents = err "none";
  kernel_names = record {
    join_host_port = λ host port. host <> ":50042";
    kernel_param_config = "talos.config";
    kernel_param_config_inline = "talos.config.inline";
    provider_address_arg = "metal.provider";
    test_mode_arg = "metal.test";
    tls_skip_verify_arg = "metal.skip";
    config_url_path = "config";
    inline_config = err "off";
  };
  encoder = record {
    new_writer = some "off";
    write = λ bytes. none;
    close = none;
    compressed = λ bytes. bytes;
    base64 = λ bytes. "";
  };
  print_port = λ port. "50042";
  binaries = record { read_file = λ name. ok binary; compress = λ bin zinfo. ok bin };
  ca_files = record {
    read_file = λ name. err "off";
    pem_decode = λ bytes. none;
    sum256 = λ bytes. bytes;
  };
  firmware_dir = record { entries = ok entries; read_file = λ name. ok (codes name) };
}

abbrev pub options : RunOptions
options = record {
  provider = record {
    secure_boot_enabled = false;
    use_local_boot_assets = false;
    agent_test_mode = false;
    api_power_mgmt_state_dir = "";
    api_advertise_address = "10.0.0.1";
    machine_labels = [];
    rpi_firmware_path = "/rpi";
  };
  tls = record {
    ca_cert_file = "";
    cert_file = "";
    key_file = "";
    ca_ttl = pos 0;
    cert_ttl = pos 0;
  };
  tls_enabled = false;
  tls_api_port = 50043;
  agent_skip_verify = false;
  ipmi_pxe_boot_mode = "uefi";
  dhcp_proxy_iface_or_ip = "";
  boot_from_disk_method = "ipxe-exit";
  extra_machine_config_path = "";
  api_port = 50042;
  custom_ipxe_ca_cert_file = "";
  clear_state = false;
}

abbrev pub nothing : Started
nothing = record {
  pxe_boot_mode = uefi;
  api_address = "";
  dhcp_iface_or_ip = "";
  certs = none;
  machine_config = [];
  boot_from_disk = ipxe_exit;
  default_kernel_args = [];
  agent_kernel_args = [];
  labels = [];
  files = [];
  serves_local_assets = false;
  serve_raspberry_pi = false;
}

abbrev pub or_nothing : Result RunError Started × Option TlsConfig → Started
or_nothing (ok st, config) = st
or_nothing (err e, config) = nothing

abbrev pub started : Started
started = or_nothing (run here options none)
