-- ===== src/Ipxe/Factory.antt =====
-- internal/provider/imagefactory/client.go: the image that a boot request gets (SchematicIPXEURL). Omni,
-- which answers for the image factory, is a parameter.
mod Tests
use omni_infra_provider_bare.Base.{
  Bool, List, Option, Option-cases, String, [], ap, arith, eq_iff, false, fields, if◌then◌else◌,
  inl, inr, none, not, some, str_eq, true, ◌&&◌, ◌++◌, ◌<>◌, ◌∙◌, ◌∷◌, ◌≡◌, ◌≢◌, ◌⊎◌,
}
use omni_infra_provider_bare.Resources.{InfraMachine}
use omni_infra_provider_bare.Machine.{talos_pxe}
use omni_infra_provider_bare.Effects.{Failure, Result, Result-cases, err, ok, other_code}
use omni_infra_provider_bare.Ipxe.{
  BootDecision, BuildArch, Handler, Schematic, Services, amd64, arm64, boot_via_factory,
  chain_script, console_kernel_args, page, status_ok,
}
use omni_infra_provider_bare.Ipxe.Decision.{boot_as}

-- agentModeExtensions and agentModeExtensionsArm64
abbrev pub agent_mode_extensions : List String
agent_mode_extensions =
    "siderolabs/amd-ucode" ∷ "siderolabs/amdgpu-firmware" ∷ "siderolabs/bnx2-bnx2x"
    ∷ "siderolabs/chelsio-firmware" ∷ "siderolabs/i915-ucode" ∷ "siderolabs/intel-ice-firmware"
    ∷ "siderolabs/intel-ucode" ∷ "siderolabs/qlogic-firmware" ∷ "siderolabs/realtek-firmware"
    ∷ "siderolabs/metal-agent" ∷ []

abbrev pub agent_mode_extensions_arm64 : List String
agent_mode_extensions_arm64 = "siderolabs/realtek-firmware" ∷ "siderolabs/metal-agent" ∷ []

abbrev pub agent_mode_extensions_for_arch : BuildArch → List String
agent_mode_extensions_for_arch arm64 = agent_mode_extensions_arm64
agent_mode_extensions_for_arch amd64 = agent_mode_extensions

-- type Client, without Omni's
pub record Client : Type 0 where
  pub agent_mode_talos_version : String
  pub secure_boot_enabled : Bool

-- What EnsureInstallationMedia is asked for.
pub record MediaRequest : Type 0 where
  pub talos_version : String
  pub extensions : List String
  pub extra_kernel_args : List String
  pub architecture : BuildArch
  pub secure_boot : Bool

-- Marshal of a schematic, whose text is only logged, and EnsureInstallationMedia, of which the URL counts.
pub record Omni : Type 0 where
  pub marshaling : MediaRequest → Option Failure
  pub ensure_installation_media : MediaRequest → Result Failure String

abbrev pub failure : String → Failure
failure text = record { code = other_code; message = text; context_ended = false }

abbrev prefixed : String → Failure → Failure
prefixed text f = record f { message = text <> f.message }

module _ (omni : Omni) (c : Client) where
  abbrev pub media_request : Schematic → MediaRequest
  media_request s = record {
    talos_version = if s.agent_mode then c.agent_mode_talos_version else s.talos_version;
    extensions = if s.agent_mode then agent_mode_extensions_for_arch s.arch else s.extensions;
    extra_kernel_args = s.kernel_args;
    architecture = s.arch;
    secure_boot = c.secure_boot_enabled;
  }

  abbrev ensure : MediaRequest → Result Failure String
  ensure request = elim (omni.ensure_installation_media request) [
    | ok url ↦ ok url
    | err f ↦ err (prefixed "failed to resolve the iPXE installation media: " f)
  ]

  unfoldable pub schematic_ipxe_url : Schematic → Result Failure String
  schematic_ipxe_url s =
      if not s.agent_mode && str_eq s.talos_version ""
      then err (failure "talosVersion is required when not booting into agent mode")
      else elim (omni.marshaling (media_request s)) [
        | some f ↦ err (prefixed "failed to marshal schematic: " f)
        | none ↦ ensure (media_request s)
      ]

  -- The handler's services, with this client.
  unfoldable pub services : (String → Result Failure String) → Services
  unfolding schematic_ipxe_url
  services read_asset = record { schematic_ipxe_url = schematic_ipxe_url; read_asset = read_asset }

-- A URL is what Omni gives for the request, which for Talos has a version.
url_of-request :
    (omni : Omni) (c : Client) (s : Schematic) (url : String)
    → schematic_ipxe_url omni c s ≡ ok url
    → (omni.ensure_installation_media (media_request omni c s) ≡ ok url)
      × ((s.agent_mode ≡ true) ⊎ (s.talos_version ≢ ""))
unfolding schematic_ipxe_url
url_of-request omni c s url h = elim (Option-cases (omni.marshaling (media_request omni c s))) [
  | inr (f, e) ↦ absurd (ground (arith, h, e))
  | inl e ↦ elim (Result-cases (omni.ensure_installation_media (media_request omni c s))) [
    | inr (f, m) ↦ absurd (ground (arith, h, e, m))
    | inl (u, m) ↦
        (m ∙ ap ok (ground (arith, h, e, m)), ground (arith, h, eq_iff s.talos_version ""))
  ]
]

-- A page of the factory is the chain to a URL that it gave.
factory_page :
    (h : Handler) (s : Services) (schematic : Schematic) (d : BootDecision)
    → boot_via_factory h s schematic ≡ ok d
    → (url : String) × (s.schematic_ipxe_url schematic ≡ ok url)
      × (d ≡ record { body = chain_script url; status_code = status_ok })
unfolding boot_via_factory
factory_page h s schematic d page = elim (Result-cases (s.schematic_ipxe_url schematic)) [
  | inr (f, e) ↦ absurd (ground (arith, page, e))
  | inl (url, e) ↦ (url, e, ground (arith, page, e))
]

-- A machine boots its own image: with this client, a boot into Talos that is no error is answered with
-- the chain to the URL that Omni gives for the cluster's Talos version, which is not empty, and its
-- extensions, the request's architecture, and the handler's, the console's and the machine's kernel
-- arguments.
pub boot_as-media_request :
    (omni : Omni) (c : Client) (h : Handler) (read_asset : String → Result Failure String)
    (arch : BuildArch) (m : InfraMachine) (d : BootDecision)
    → boot_as h (services omni c read_asset) talos_pxe arch (some m) ≡ ok d
    → (m.cluster_talos_version ≢ "")
      × (url : String) × (omni.ensure_installation_media (record {
        talos_version = m.cluster_talos_version;
        extensions = m.extensions;
        extra_kernel_args =
            h.default_kernel_args ++ (console_kernel_args arch ++ fields m.extra_kernel_args);
        architecture = arch;
        secure_boot = c.secure_boot_enabled;
      })
          ≡ ok url)
      × (d ≡ record { body = chain_script url; status_code = status_ok })
unfolding boot_as services
boot_as-media_request omni c h read_asset arch m d booted =
    let schematic : Schematic = record {
      agent_mode = false;
      talos_version = m.cluster_talos_version;
      arch = arch;
      extensions = m.extensions;
      kernel_args =
          h.default_kernel_args ++ (console_kernel_args arch ++ fields m.extra_kernel_args);
    } in
    elim (Result-cases (boot_via_factory h (services omni c read_asset) schematic)) [
      | inr (e, f) ↦ absurd (ground (arith, booted, f))
      | inl (d', f) ↦
          let (url, given, page) = factory_page h (services omni c read_asset) schematic d' f in
          let (asked, version) = url_of-request omni c schematic url given in
          (ground (arith, version), url, asked, ground (arith, booted, f, page))
    ]
