-- ===== src/Ipxe.antt =====
-- internal/provider/ipxe: what a machine that boots over the network can be booted into (handler.go, boot.go),
-- with the data of the handler. The image factory, the files and the network are parameters.
pub mod Decision
pub mod Patch
pub mod Files
pub mod Setup
pub mod Factory
pub mod Laws
pub mod Embedded
mod Tests
use omni_infra_provider_bare.Base.{
  Bool, List, String, [], false, if◌then◌else◌, join, str_eq, trim_space, true, ℕ, ◌++◌, ◌<>◌, ◌∷◌,
}
use omni_infra_provider_bare.Resources.{BmcConfiguration, InfraMachine, WipeStatus}
use omni_infra_provider_bare.Machine.{BootOptions}
use omni_infra_provider_bare.Effects.{Error, Failure, Result, err, invalid, ok, wrapped}
use omni_infra_provider_bare.Controllers.Common.{Read}

-- type BootFromDiskMethod
pub data BootFromDiskMethod : Type 0 where
  ipxe_exit http_404 ipxe_sanboot : BootFromDiskMethod

-- The texts of the three constants.
unfoldable pub method_name : BootFromDiskMethod → String
method_name ipxe_exit = "ipxe-exit"
method_name http_404 = "http-404"
method_name ipxe_sanboot = "ipxe-sanboot"

unfoldable pub parse_boot_from_disk_method : String → Result Error BootFromDiskMethod
parse_boot_from_disk_method s =
    if str_eq s "ipxe-exit"
    then ok ipxe_exit
    else if str_eq s "http-404"
    then ok http_404
    else if str_eq s "ipxe-sanboot"
    then ok ipxe_sanboot
    else err (invalid ("unknown boot from disk method: " <> s))

-- The two architectures of `switch arch`.
pub data BuildArch : Type 0 where
  amd64 arm64 : BuildArch

abbrev pub build_arch : String → BuildArch
build_arch s = if str_eq s "arm64" then arm64 else amd64

abbrev pub arch_name : BuildArch → String
arch_name amd64 = "amd64"
arch_name arm64 = "arm64"

abbrev pub console_kernel_args : BuildArch → List String
console_kernel_args arm64 = "console=tty0" ∷ "console=ttyAMA0" ∷ []
console_kernel_args amd64 = "console=tty0" ∷ "console=ttyS0" ∷ []

-- What SchematicIPXEURL is asked for.
pub record Schematic : Type 0 where
  pub agent_mode : Bool
  pub talos_version : String
  pub arch : BuildArch
  pub extensions : List String
  pub kernel_args : List String

-- What the handler calls: the image factory, and os.ReadFile on a file of the boot assets' directory.
pub record Services : Type 0 where
  pub schematic_ipxe_url : Schematic → Result Failure String
  pub read_asset : String → Result Failure String

-- The fields of type Handler and of HandlerOptions that a decision reads; `host_port` joins the
-- address and the port of the API.
pub record Handler : Type 0 where
  pub boot_from_disk_method : BootFromDiskMethod
  pub default_kernel_args : List String
  pub agent_kernel_args : List String
  pub host_port : String
  pub boot : BootOptions
  pub use_local_boot_assets : Bool

-- What the handler reads of a machine.
pub record Reads : Type 0 where
  pub machine : Read InfraMachine
  pub bmc : Read BmcConfiguration
  pub wipe : Read WipeStatus

-- type bootDecision
pub record BootDecision : Type 0 where
  pub body : String
  pub status_code : ℕ

abbrev pub status_ok : ℕ
status_ok = 200

abbrev pub status_not_found : ℕ
status_not_found = 404

-- The scripts.
abbrev pub chain_script : String → String
chain_script url = "#!ipxe\nchain --replace " <> url <> "\n"

abbrev pub local_script : String → String → String → String
local_script kernel cmdline initrd =
    "#!ipxe\nimgfree\nkernel " <> kernel <> " " <> cmdline <> "\ninitrd " <> initrd <> "\nboot\n"

abbrev pub exit_script : String
exit_script = "#!ipxe\nexit\n"

abbrev pub sanboot_script : String
sanboot_script = "#!ipxe\nsanboot --no-describe --drive 0x80\n"

abbrev wrapping : {A : Type 0} → String → Result Failure A → Result Error A
wrapping text (ok a) = ok a
wrapping text (err f) = err (wrapped text f)

abbrev then_ok : {A B : Type 0} → (A → B) → Result Error A → Result Error B
then_ok f (ok a) = ok (f a)
then_ok f (err e) = err e

abbrev pub page : String → BootDecision
page script = record { body = script; status_code = status_ok }

abbrev pub not_found : String → BootDecision
not_found text = record { body = text; status_code = status_not_found }

-- The URL of a boot asset.
abbrev pub asset_url : Handler → String → String
asset_url h name = "http://" <> h.host_port <> "/assets/" <> name

module _ (h : Handler) (s : Services) where
  unfoldable pub boot_agent_mode_locally : BuildArch → List String → Result Error BootDecision
  boot_agent_mode_locally arch args =
      then_ok
        (λ cmdline. page (
          local_script (asset_url h ("kernel-" <> arch_name arch))
            (trim_space cmdline <> " " <> join args " ")
            (asset_url h ("initramfs-metal-" <> arch_name arch <> ".xz"))))
        (wrapping "failed to read cmdline" (s.read_asset ("cmdline-metal-" <> arch_name arch)))

  unfoldable pub boot_via_factory : Schematic → Result Error BootDecision
  boot_via_factory schematic =
      then_ok (λ url. page (chain_script url))
        (wrapping "failed to get schematic IPXE URL" (s.schematic_ipxe_url schematic))

  unfoldable pub boot_into_agent_mode : BuildArch → List String → Result Error BootDecision
  unfolding boot_agent_mode_locally boot_via_factory
  boot_into_agent_mode arch extra =
      let args = h.agent_kernel_args ++ (console_kernel_args arch ++ extra) in
      elim h.use_local_boot_assets [
        | true ↦ boot_agent_mode_locally arch args
        | false ↦ boot_via_factory (record {
          agent_mode = true;
          talos_version = "";
          arch = arch;
          extensions = [];
          kernel_args = args;
        })
      ]
