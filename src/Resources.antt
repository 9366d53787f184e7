-- ===== src/Resources.antt =====
-- The resources that the controllers read and write: the messages of api/specs/specs.proto with the
-- metadata that the code looks at (internal/provider/resources), and of Omni's `infra.Machine` and
-- `infra.MachineStatus` the fields that the code uses.
use omni_infra_provider_bare.Base.{ℕ, String, Bool, Option, List}

-- resource.Phase
pub data Phase : Type 0 where
  running tearing_down : Phase

-- InfraMachineConfigSpec's AcceptanceStatus
pub data AcceptanceStatus : Type 0 where
  pending accepted rejected : AcceptanceStatus

-- InfraMachineSpec's PreferredPowerState
pub data PreferredPowerState : Type 0 where
  prefer_off prefer_on : PreferredPowerState

-- enum PowerState
pub data PowerState : Type 0 where
  unknown off on : PowerState

-- A map of labels, one entry for a key.
abbrev pub Labels : Type 0
Labels = List (String × String)

pub record InfraMachine : Type 0 where
  pub id : String
  pub phase : Phase
  pub labels : Labels
  pub acceptance_status : AcceptanceStatus
  pub cordoned : Bool
  pub cluster_talos_version : String
  pub extensions : List String
  pub extra_kernel_args : String
  pub install_event_id : ℕ
  pub wipe_id : String
  pub requested_reboot_id : String
  pub power_off_request_id : String
  pub node_unique_token : String
  pub preferred_power_state : PreferredPowerState

pub record InfraMachineStatus : Type 0 where
  pub labels : Labels
  pub power_state : PowerState
  pub last_reboot_id : String
  pub last_reboot_timestamp : Option ℕ
  pub installed : Bool
  pub ready_to_use : Bool
  pub wiped_node_unique_token : String
  pub last_power_off_id : String

-- message PowerOperationSpec; a timestamp counts nanoseconds from Go's zero time.
pub record PowerOperation : Type 0 where
  pub last_power_operation : PowerState
  pub last_power_on_timestamp : Option ℕ
  pub last_power_off_id : String
  pub wipe_id_at_power_off : String

-- message BMCConfigurationSpec.IPMI
pub record Ipmi : Type 0 where
  pub address : String
  pub port : ℕ
  pub username : String
  pub password : String

-- message BMCConfigurationSpec, with the id and the finalizers; the API message is its address, and
-- `manual` says whether the empty message Manual is there.
pub record BmcConfiguration : Type 0 where
  pub id : String
  pub finalizers : List String
  pub ipmi : Option Ipmi
  pub api : Option String
  pub manually_configured : Bool
  pub manual : Bool

-- message MachineStatusSpec
pub record MachineStatus : Type 0 where
  pub id : String
  pub phase : Phase
  pub finalizers : List String
  pub agent_accessible : Bool
  pub power_state : PowerState
  pub initialized : Bool

-- message WipeStatusSpec
pub record WipeStatus : Type 0 where
  pub last_wipe_id : String
  pub last_wipe_install_event_id : ℕ
  pub initial_wipe_done : Bool
  pub wiped_node_unique_token : String

-- message RebootStatusSpec
pub record RebootStatus : Type 0 where
  pub last_reboot_id : String
  pub last_reboot_timestamp : Option ℕ
