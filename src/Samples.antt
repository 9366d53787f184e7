-- ===== src/Samples.antt =====
-- A machine with its resources, and environments, for the tests. No code of the program is modelled
-- here.
use omni_infra_provider_bare.Base.{[], false, none, some, true, ◌∷◌}
use omni_infra_provider_bare.Resources.{
  BmcConfiguration, InfraMachine, Ipmi, MachineStatus, PowerOperation, RebootStatus, WipeStatus,
  accepted, prefer_off, running, unknown,
}
use omni_infra_provider_bare.Machine.{BootOptions}
use omni_infra_provider_bare.Effects.{Capabilities, Env, Failure, err, internal, ok}

abbrev pub full : Capabilities
full = record {
  power_state = true;
  power_control = true;
  boot_device_control = true;
  can_reboot = true;
}

abbrev pub bare : Capabilities
bare = record {
  power_state = false;
  power_control = false;
  boot_device_control = false;
  can_reboot = false;
}

abbrev pub broken : Failure
broken = record { code = internal; message = "No IPMI device"; context_ended = false }

-- All calls succeed; the machine is off, and its agent names an IPMI.
abbrev pub calm : Env
calm = record {
  client = λ t c. ok full;
  power = λ t. ok false;
  accessible = λ t id. ok true;
  management = λ t id. ok (record { has_api = false; agent_ipmi = some ("10.0.0.7", 6230) });
  address = λ t id. ok "10.0.0.7:8000";
  password = λ t. ok "secret";
  act = λ t c. ok tt;
}

-- The machine is on.
abbrev pub lit : Env
lit = record calm { power = λ t. ok true }

-- The machine has no BMC.
abbrev pub handmade : Env
handmade = record calm { client = λ t c. ok bare; management = λ t id. err broken }

-- Allocated, wiped and not yet installed.
abbrev pub m1 : InfraMachine
m1 = record {
  id = "m1";
  phase = running;
  labels = ("rack", "7") ∷ [];
  acceptance_status = accepted;
  cordoned = false;
  cluster_talos_version = "1.9.0";
  extensions = [];
  extra_kernel_args = "";
  install_event_id = 0;
  wipe_id = "w1";
  requested_reboot_id = "";
  power_off_request_id = "";
  node_unique_token = "t1";
  preferred_power_state = prefer_off;
}

-- Not allocated, and wiped.
abbrev pub idle : InfraMachine
idle = record m1 { cluster_talos_version = "" }

-- Installed.
abbrev pub m2 : InfraMachine
m2 = record m1 { install_event_id = 5 }

abbrev pub w1 : WipeStatus
w1 = record {
  last_wipe_id = "w1";
  last_wipe_install_event_id = 0;
  initial_wipe_done = true;
  wiped_node_unique_token = "t1";
}

-- Nothing was wiped yet.
abbrev pub w0 : WipeStatus
w0 = record w1 { initial_wipe_done = false; last_wipe_id = "" }

abbrev pub ipmi1 : Ipmi
ipmi1 = record { address = "10.0.0.7"; port = 623; username = "talos-agent"; password = "secret" }

abbrev pub no_bmc : BmcConfiguration
no_bmc = record {
  id = "m1";
  finalizers = [];
  ipmi = none;
  api = none;
  manually_configured = false;
  manual = false;
}

abbrev pub bmc1 : BmcConfiguration
bmc1 = record no_bmc { ipmi = some ipmi1 }

abbrev pub by_hand : BmcConfiguration
by_hand = record no_bmc { manual = true }

abbrev pub silent : MachineStatus
silent = record {
  id = "m1";
  phase = running;
  finalizers = [];
  agent_accessible = false;
  power_state = unknown;
  initialized = true;
}

abbrev pub talking : MachineStatus
talking = record silent { agent_accessible = true }

abbrev pub op0 : PowerOperation
op0 = record {
  last_power_operation = unknown;
  last_power_on_timestamp = none;
  last_power_off_id = "";
  wipe_id_at_power_off = "";
}

abbrev pub disk_first : BootOptions
disk_first = record { always_netboot = false }

abbrev pub r0 : RebootStatus
r0 = record { last_reboot_id = ""; last_reboot_timestamp = some 1000 }
