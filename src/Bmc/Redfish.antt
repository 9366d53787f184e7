-- ===== src/Bmc/Redfish.antt =====
-- internal/provider/bmc/redfish/redfish.go: what the Redfish client asks of a BMC. The library's calls
-- are parameters, as the answers of the BMC.
pub mod Laws
pub mod Sessions
mod Tests
use omni_infra_provider_bare.Base.{
  Bool, List, Option, String, [], codes, contains, if◌then◌else◌, none, not, some, str_eq, true, ℕ,
  ◌++◌, ◌<>◌, ◌∷◌,
}
use omni_infra_provider_bare.Effects.{Done, PxeMode, Result, bios, err, ok, other_mode, uefi}

-- The parts of type ClientConfig and of type Client.
pub record Client : Type 0 where
  pub endpoint : String
  pub username : String
  pub password : String
  pub insecure : Bool
  pub basic_auth : Bool
  pub set_boot_source_override_mode : Bool

-- type Options of redfish/options.go
pub record Options : Type 0 where
  pub use_https : Bool
  pub insecure_skip_tls_verify : Bool
  pub set_boot_source_override_mode : Bool
  pub port : ℕ

-- net.SplitHostPort, whose port is not used, and net.JoinHostPort with a number.
pub record HostPort : Type 0 where
  pub split_host : String → Result String String
  pub join_host_port : String → ℕ → String

abbrev host_of : HostPort → String → String
host_of net address = elim (net.split_host address) [ ok host ↦ host | err _ ↦ address ]

unfoldable pub new_client : HostPort → Options → (address username password : String) → Client
new_client net o address username password =
    let protocol = if o.use_https then "https" else "http" in
    record {
      endpoint = protocol <> "://" <> net.join_host_port (host_of net address) o.port;
      username = username;
      password = password;
      insecure = o.insecure_skip_tls_verify;
      basic_auth = true;
      set_boot_source_override_mode = o.set_boot_source_override_mode;
    }

pub data ResetType : Type 0 where
  on_reset force_off_reset force_restart_reset : ResetType

pub data OverrideEnabled : Type 0 where
  once_override disabled_override : OverrideEnabled

pub data OverrideTarget : Type 0 where
  pxe_target none_target : OverrideTarget

-- BootSourceOverrideMode, which may be unset.
pub data OverrideMode : Type 0 where
  unset_mode legacy_mode uefi_mode : OverrideMode

pub record Boot : Type 0 where
  pub enabled : OverrideEnabled
  pub target : OverrideTarget
  pub mode : OverrideMode

-- A system, as it is listed: its @odata.id, and whether its power state is on.
pub record System : Type 0 where
  pub odata_id : String
  pub is_on : Bool

-- The requests of a session, in order. A PATCH carries the ETag that it must match.
pub data Request : Type 0 where
  connect logout list_systems : Request
  reset : System → ResetType → Request
  set_boot : System → Boot → Request
  get_request : String → Request
  patch : (uri : String) → Boot → (etag : String) → Request

-- How the BMC answers; an error is its text. A GET gives the ETag of the answer, "" without one.
pub record Answers : Type 0 where
  pub connecting : Option String
  pub systems : Result String (List System)
  pub resetting : System → ResetType → Option String
  pub setting_boot : System → Boot → Option String
  pub getting : String → Result String String
  pub patching : (uri : String) → Boot → (etag : String) → Option String

-- What was asked, and what came of it.
abbrev pub Asked : Type 0 → Type 0
Asked A = List Request × Result String A

abbrev first_then : {A : Type 0} → Request → Asked A → Asked A
first_then r (rs, a) = (r ∷ rs, a)

abbrev done_unless : Option String → Result String Done
done_unless none = ok tt
done_unless (some text) = err text

abbrev on_first : {A : Type 0} → Result String (List System) → (System → Asked A) → Asked A
on_first (err text) f = ([], err text)
on_first (ok []) f = ([], err "no systems found")
on_first (ok (system ∷ _)) f = f system

-- isAMIFutureStateError, on the error's text
abbrev pub is_ami_future_state_error : String → Bool
is_ami_future_state_error text =
    contains (codes text) (codes "Ami.1.0.OperationSupportedInFutureStateURI")

-- The override mode that a boot mode stands for, if the client sets one.
abbrev pub override_mode : Client → PxeMode → Result String OverrideMode
override_mode c mode = if not c.set_boot_source_override_mode then ok unset_mode else elim mode [
  | bios ↦ ok legacy_mode
  | uefi ↦ ok uefi_mode
  | other_mode text ↦ err ("unknown boot mode: " <> text)
]

abbrev pub pxe_once : OverrideMode → Boot
pxe_once mode = record { enabled = once_override; target = pxe_target; mode = mode }

module _ (bmc : Answers) where
  -- The session ends with a logout, whatever came of it.
  unfoldable pub with_client : {A : Type 0} → Asked A → Asked A
  with_client {A} (rs, a) = elim bmc.connecting [
    | some text ↦ (connect ∷ [], err text)
    | none ↦ (connect ∷ rs ++ (logout ∷ []), a)
  ]

  -- getSystem, and what is done with the system.
  unfoldable pub with_system : {A : Type 0} → (System → Asked A) → Asked A
  with_system f = first_then list_systems (on_first bmc.systems f)

  abbrev reset_system : ResetType → System → Asked Done
  reset_system type system = (reset system type ∷ [], done_unless (bmc.resetting system type))

  unfoldable pub do_computer_system_reset : ResetType → Asked Done
  unfolding with_system
  do_computer_system_reset type = with_system (reset_system type)

  unfoldable pub reboot : Asked Done
  unfolding do_computer_system_reset with_client
  reboot = with_client (do_computer_system_reset force_restart_reset)

  unfoldable pub power_on : Asked Done
  unfolding do_computer_system_reset with_client
  power_on = with_client (do_computer_system_reset on_reset)

  unfoldable pub power_off : Asked Done
  unfolding do_computer_system_reset with_client
  power_off = with_client (do_computer_system_reset force_off_reset)

  abbrev system_is_on : System → Asked Bool
  system_is_on system = ([], ok system.is_on)

  unfoldable pub is_powered_on : Asked Bool
  unfolding with_client with_system
  is_powered_on = with_client (with_system system_is_on)

  abbrev reset_boot : System → Asked Done
  reset_boot system =
      let boot : Boot = record {
        enabled = disabled_override;
        target = none_target;
        mode = unset_mode;
      } in
      (set_boot system boot ∷ [], done_unless (bmc.setting_boot system boot))

  unfoldable pub reset_boot_device : Asked Done
  unfolding with_client with_system
  reset_boot_device = with_client (with_system reset_boot)

  abbrev set_boot_with : String → Boot → String → Asked Done
  set_boot_with uri boot etag =
      if str_eq etag "" then ([], err "no ETag found in FutureState response") else (
        patch uri boot etag ∷ [],
        elim (bmc.patching uri boot etag) [
          | none ↦ ok tt
          | some text ↦ err ("failed to set boot via AMI FutureState URI: " <> text)
        ],
      )

  unfoldable pub set_boot_ami_future_state : System → Boot → Asked Done
  set_boot_ami_future_state system boot =
      let uri = system.odata_id <> "/SD" in
      first_then (get_request uri) (elim (bmc.getting uri) [
        | err text ↦ ([], err ("failed to get current FutureState: " <> text))
        | ok etag ↦ set_boot_with uri boot etag
      ])

  unfoldable pub set_boot_or_future : System → Boot → Asked Done
  unfolding set_boot_ami_future_state contains
  set_boot_or_future system boot =
      first_then (set_boot system boot) (elim (bmc.setting_boot system boot) [
        | none ↦ ([], ok tt)
        | some text ↦
            if is_ami_future_state_error text
            then set_boot_ami_future_state system boot
            else ([], err text)
      ])

  abbrev set_pxe_on : Client → PxeMode → System → Asked Done
  set_pxe_on c mode system = elim (override_mode c mode) [
    | err text ↦ ([], err text)
    | ok override ↦ set_boot_or_future system (pxe_once override)
  ]

  unfoldable pub set_pxe_boot_once : Client → PxeMode → Asked Done
  unfolding with_client with_system set_boot_or_future
  set_pxe_boot_once c mode = with_client (with_system (set_pxe_on c mode))
