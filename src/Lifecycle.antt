-- ===== src/Lifecycle.antt =====
-- How the parts take a machine from one use to the next: the controllers of reboot_status.go and
-- wipe_status.go, machine.go, and the boot decisions of ipxe/handler.go.
mod Tests
use omni_infra_provider_bare.Base.{
  Option, String, [], arith, eq_iff, false, fields, refl, some, true, ◌++◌, ◌||◌, ◌∙◌, ◌≡◌, ◌≢◌,
}
use omni_infra_provider_bare.Resources.{
  BmcConfiguration, InfraMachine, MachineStatus, RebootStatus, WipeStatus, accepted, running,
}
use omni_infra_provider_bare.Machine.{
  BootMode, BootOptions, agent_pxe, is_installed, required_boot_mode, requires_power_on,
  requires_pxe_boot, requires_wipe, talos_pxe,
}
use omni_infra_provider_bare.Effects.{Capabilities, Done, Env, Outcome, done, final, ok, wipe_disks}
use omni_infra_provider_bare.Ipxe.{
  BootDecision, BuildArch, Handler, Reads, Schematic, Services, build_arch, chain_script,
  console_kernel_args,
}
use omni_infra_provider_bare.Controllers.RebootStatus.{Helper, Inputs, State, mode_mismatch}
use omni_infra_provider_bare.Controllers.RebootStatus.Laws.{mode_of, run}
use omni_infra_provider_bare.Controllers.RebootStatus.Due.{
  IsReady, Obeys, reboot_calls, rebooted_when_due, recorded,
}
use omni_infra_provider_bare.Controllers.WipeStatus
use omni_infra_provider_bare.Controllers.WipeStatus.Laws as Wipe
use omni_infra_provider_bare.Ipxe.Decision.{make_boot_decision}

-- The image that the handler asks for, for Talos on this machine.
abbrev pub talos_schematic : Handler → BuildArch → InfraMachine → Schematic
talos_schematic h arch m = record {
  agent_mode = false;
  talos_version = m.cluster_talos_version;
  arch = arch;
  extensions = m.extensions;
  kernel_args = h.default_kernel_args ++ (console_kernel_args arch ++ fields m.extra_kernel_args);
}

-- The image that the handler asks for, for the agent on this machine.
abbrev pub agent_schematic : Handler → BuildArch → InfraMachine → Schematic
agent_schematic h arch m = record {
  agent_mode = true;
  talos_version = "";
  arch = arch;
  extensions = [];
  kernel_args = h.agent_kernel_args ++ (console_kernel_args arch ++ fields m.extra_kernel_args);
}

abbrev pub reads : InfraMachine → BmcConfiguration → WipeStatus → Reads
reads m c w = record { machine = ok (some m); bmc = ok (some c); wipe = ok (some w) }

abbrev pub chained : String → BootDecision
chained url = record { body = chain_script url; status_code = 200 }

-- A machine that is given to a cluster and has no reason to wait.
pub record IsGiven (m : InfraMachine) : Type 0 where
  pub accepted : m.acceptance_status ≡ accepted
  pub not_cordoned : m.cordoned ≡ false
  pub alive : m.phase ≡ running
  pub allocated : m.cluster_talos_version ≢ ""

fresh_mode :
    (m : InfraMachine) (c : BmcConfiguration) (w : WipeStatus) (o : BootOptions)
    → IsGiven m
    → requires_wipe (some m) (some w) ≡ false
    → is_installed (some m) (some w) ≡ false
    → required_boot_mode (some m) (some c) (some w) o ≡ talos_pxe
unfolding required_boot_mode
fresh_mode m c w o g wiped fresh = ground (arith, eq_iff m.cluster_talos_version "", g.allocated)

due_mode :
    (m : InfraMachine) (c : BmcConfiguration) (w : WipeStatus) (o : BootOptions)
    → m.acceptance_status ≡ accepted
    → requires_wipe (some m) (some w) ≡ true
    → required_boot_mode (some m) (some c) (some w) o ≡ agent_pxe
unfolding required_boot_mode
due_mode m c w o a due = ground arith

module _ (h : Handler) (services : Services) (arch uuid url : String) (m : InfraMachine)
    (c : BmcConfiguration) (w : WipeStatus) (named : uuid ≢ "")
    (taken : m.acceptance_status ≡ accepted) (not_cordoned : m.cordoned ≡ false) where
  talos_served :
      required_boot_mode (some m) (some c) (some w) h.boot ≡ talos_pxe
      → services.schematic_ipxe_url (talos_schematic h (build_arch arch) m) ≡ ok url
      → make_boot_decision h services arch uuid (reads m c w) ≡ ok (chained url)
  unfolding make_boot_decision
  talos_served mode answer = ground (arith, eq_iff uuid "")

  agent_served :
      required_boot_mode (some m) (some c) (some w) h.boot ≡ agent_pxe
      → h.use_local_boot_assets ≡ false
      → services.schematic_ipxe_url (agent_schematic h (build_arch arch) m) ≡ ok url
      → make_boot_decision h services arch uuid (reads m c w) ≡ ok (chained url)
  unfolding make_boot_decision
  agent_served mode remote answer = ground (arith, eq_iff uuid "")

-- The calls and the end of a reconciliation that reboots a machine into a mode over the network.
abbrev pub rebooted : Helper → Inputs → RebootStatus → Capabilities → Outcome State Done
rebooted helper i st caps = done tt (record {
  res = some (recorded i.machine i.now st);
  trace = reboot_calls helper i.machine.id true caps;
})

module _ (env : Env) (helper : Helper) (i : Inputs) (st : RebootStatus) (s : MachineStatus)
    (c : BmcConfiguration) (caps : Capabilities) (h : Handler) (services : Services)
    (arch url : String) where
  reboot_into :
      (wipe : Option WipeStatus) (mode : BootMode)
      → IsReady helper i st s c wipe
      → Obeys env helper i.machine.id c caps
      → mode_of helper i c wipe ≡ mode
      → requires_pxe_boot mode ≡ true
      → requires_power_on i.machine wipe ≡ true
      → mode_mismatch mode s.agent_accessible ≡ true
      → (caps.can_reboot || s.agent_accessible) ≡ true
      → run env helper i (some st) ≡ rebooted helper i st caps
  reboot_into wipe mode ready obeys e pxe needed wrong reach =
      rebooted_when_due env helper i st s c wipe caps ready obeys reach (rw (e, needed, wrong) refl)
      ∙ rw (e, pxe) refl

  -- From the wipe to Talos. Suppose that a machine requires a wipe, that the wipe controller reads a
  -- machine status with an accessible agent, and that the agent takes the wipe; that the machine, whose id is not empty, is accepted, not cordoned, not torn down and allocated to a
  -- cluster; that the reboot controller reads the wipe status that the wipe leaves, a machine status
  -- with an accessible agent, a BMC configuration and the other resources without an error, has its
  -- finalizers on the first two, and its cooldown is over; that the BMC client is made and the calls to
  -- the BMC and to the agent succeed; and that the iPXE handler has the controller's boot options and
  -- the image factory answers. Then the controller reboots the machine and records the reboot: over
  -- the BMC if that can reboot, and pointed at the network before if it can also set the boot device,
  -- and over the agent otherwise. And the boot request of the machine, read with that wipe status, is
  -- answered with the image of its Talos version.
  pub talos_after_wipe :
      (wipe_env : Env) (wi : WipeStatus.Inputs) (w : WipeStatus)
      → Wipe.IsDue wi w
      → wipe_env.act [] (wipe_disks wi.machine.id) ≡ ok tt
      → i.machine ≡ wi.machine
      → IsGiven i.machine
      → let w' = (final (Wipe.run wipe_env wi w)).res in
        IsReady helper i st s c (some w')
        → s.agent_accessible ≡ true
        → Obeys env helper i.machine.id c caps
        → h.boot ≡ helper.boot_options
        → i.machine.id ≢ ""
        → services.schematic_ipxe_url (talos_schematic h (build_arch arch) i.machine) ≡ ok url
        → (run env helper i (some st) ≡ rebooted helper i st caps)
          × (make_boot_decision h services arch i.machine.id
                (reads i.machine c (final (Wipe.run wipe_env wi w)).res)
              ≡ ok (chained url))
  unfolding requires_power_on requires_pxe_boot
  talos_after_wipe wipe_env wi w due sent same given ready accessible obeys boot named answer =
      let (ended, wiped, fresh, _) = Wipe.wipe_settles wipe_env wi w due sent in
      let w' : WipeStatus = (final (Wipe.run wipe_env wi w)).res in
      let mode =
        fresh_mode i.machine c w' helper.boot_options given (rw same wiped) (rw same fresh) in
      (
        reboot_into (some w') talos_pxe ready obeys mode refl
            (ground (arith, eq_iff i.machine.cluster_talos_version "", given.allocated))
            (rw accessible refl) (rw accessible (ground arith)),
        talos_served h services arch i.machine.id url i.machine c w' named given.accepted
            given.not_cordoned (rw boot mode) answer,
      )

  -- From any use to the agent. Suppose that a machine, whose id is not empty, requires a wipe; that it
  -- is accepted and not cordoned; that the reboot controller reads its wipe status, a machine status
  -- with an agent that is not accessible, a BMC configuration and the other resources without an error,
  -- has its finalizers on the machine status and the configuration, and its cooldown is over; that the
  -- BMC client is made, can reboot, and its calls succeed; and that the iPXE handler has the
  -- controller's boot options, uses no local boot assets, and the image factory answers. Then the
  -- controller reboots the machine over its BMC, pointed at the network before if the BMC can set the
  -- boot device, and records the reboot; and the boot request of the machine is answered with the
  -- agent's image.
  pub agent_before_wipe :
      (w : WipeStatus)
      → requires_wipe (some i.machine) (some w) ≡ true
      → IsReady helper i st s c (some w)
      → s.agent_accessible ≡ false
      → caps.can_reboot ≡ true
      → Obeys env helper i.machine.id c caps
      → h.boot ≡ helper.boot_options
      → h.use_local_boot_assets ≡ false
      → i.machine.id ≢ ""
      → services.schematic_ipxe_url (agent_schematic h (build_arch arch) i.machine) ≡ ok url
      → (run env helper i (some st) ≡ rebooted helper i st caps)
        × (make_boot_decision h services arch i.machine.id (reads i.machine c w) ≡ ok (chained url))
  unfolding requires_power_on requires_pxe_boot
  agent_before_wipe w due ready silent can obeys boot remote named answer =
      let mode = due_mode i.machine c w helper.boot_options ready.managed.accepted due in
      (
        reboot_into (some w) agent_pxe ready obeys mode refl (ground (arith, due)) (rw silent refl)
            (rw can refl),
        agent_served h services arch i.machine.id url i.machine c w named ready.managed.accepted
            ready.managed.not_cordoned (rw boot mode) remote answer,
      )
