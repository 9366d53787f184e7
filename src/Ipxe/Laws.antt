-- ===== src/Ipxe/Laws.antt =====
-- Which machines get a Talos image, and what a boot request reports.
use omni_infra_provider_bare.Base.{
  Bool, Option, String, arith, eq_iff, false, if◌then◌else◌, refl, some, true, ◌↔◌, ◌≡◌, ◌≢◌, ◌⊎◌,
}
use omni_infra_provider_bare.Resources.{BmcConfiguration, InfraMachine, WipeStatus, rejected}
use omni_infra_provider_bare.Machine.{is_installed, required_boot_mode, requires_pxe_boot}
use omni_infra_provider_bare.Machine.Laws.{IsCleared, required_boot_mode-talos_pxe_iff}
use omni_infra_provider_bare.Effects.{Failure, Result, err, ok}
use omni_infra_provider_bare.Ipxe.{
  BootDecision, BootFromDiskMethod, Handler, Reads, Schematic, Services, boot_into_agent_mode,
  method_name, parse_boot_from_disk_method, status_not_found,
}
use omni_infra_provider_bare.Ipxe.Decision.{Refusal, boot_from_disk, make_boot_decision, serve_http}

-- The services with another image factory for the images that are not the agent's.
abbrev pub with_talos : (Schematic → Result Failure String) → Services → Services
with_talos g s = record s {
  schematic_ipxe_url = λ x. if x.agent_mode then s.schematic_ipxe_url x else g x;
}

-- No Talos image for an uncleared machine: for a machine and a wipe status that exist, the decision
-- depends on what the image factory answers for a Talos image, rather than the agent's, only if the
-- machine is cleared to run Talos (accepted, alive, allocated, with a BMC configuration and its
-- current wipe done), is not cordoned, and is not left to its disk.
pub talos_needs_clearance :
    (h : Handler) (s : Services) (g : Schematic → Result Failure String) (arch uuid : String)
    (m : InfraMachine) (bmc : Option BmcConfiguration) (w : WipeStatus)
    → let r : Reads = record { machine = ok (some m); bmc = ok bmc; wipe = ok (some w) } in
      (make_boot_decision h (with_talos g s) arch uuid r ≡ make_boot_decision h s arch uuid r)
      ⊎ (IsCleared m bmc w
          × (m.cordoned ≡ false)
          × ((is_installed (some m) (some w) ≡ false) ⊎ (h.boot.always_netboot ≡ true)))
unfolding make_boot_decision boot_into_agent_mode
talos_needs_clearance h s g arch uuid m bmc w =
    ground (arith, required_boot_mode-talos_pxe_iff m bmc w h.boot)

-- The boot handler and the boot mode agree: for a machine that exists and is neither cordoned nor
-- rejected, a boot request with its id is answered as the mode that the resources require says: from
-- the disk by the configured method if the mode needs no PXE boot, and else by what the factory or
-- the local assets give, or an error with the status 500.
pub disk_when_not_required :
    (h : Handler) (s : Services) (arch uuid : String) (m : InfraMachine)
    (bmc : Option BmcConfiguration) (wipe : Option WipeStatus)
    → uuid ≢ ""
    → m.cordoned ≡ false
    → requires_pxe_boot (required_boot_mode (some m) bmc wipe h.boot) ≡ false
    → let r : Reads = record { machine = ok (some m); bmc = ok bmc; wipe = ok wipe } in
      (make_boot_decision h s arch uuid r ≡ ok (boot_from_disk h.boot_from_disk_method))
      ⊎ ((m.acceptance_status ≡ rejected)
          × (make_boot_decision h s arch uuid r
              ≡ ok (record { body = ""; status_code = status_not_found })))
unfolding make_boot_decision requires_pxe_boot
disk_when_not_required h s arch uuid m bmc wipe n c p = ground (arith, eq_iff uuid "")

module _ (h : Handler) (s : Services) (script arch uuid init_script : String) (r : Reads)
    (is_written has_room : Bool) where
  -- A PXE boot event is sent exactly for a request of the boot script whose decision is no error, whose
  -- answer is written, while the channel has room; it carries the machine's id, which is not empty.
  pub event_iff :
      (id : String)
      → ((serve_http h s script arch uuid init_script r is_written has_room).1 ≡ some id) ↔ (
          (script ≡ "boot.ipxe")
          × ((d : BootDecision) × (make_boot_decision h s arch uuid r ≡ ok d))
          × (is_written ≡ true)
          × (has_room ≡ true)
          × (id ≡ uuid)
          × (id ≢ ""))
  unfolding serve_http make_boot_decision
  event_iff id = ground (
    arith,
    eq_iff script "boot.ipxe",
    eq_iff script "init.ipxe",
    eq_iff "boot.ipxe" "init.ipxe",
    eq_iff uuid "",
  )

-- A request without an id: the decision is an error with the status 400, which the machine never sees,
-- since it is answered with the status 500.
pub missing_id :
    (h : Handler) (s : Services) (arch init_script : String) (r : Reads)
    (is_written has_room : Bool)
    → ((e : Refusal) × (make_boot_decision h s arch "" r ≡ err e) × (e.status_code ≡ 400))
      × ((serve_http h s "boot.ipxe" arch "" init_script r is_written has_room).0.status_code ≡ 500)
unfolding serve_http make_boot_decision
missing_id h s arch init_script r is_written has_room = ((_, refl, refl), refl)

-- The boot-from-disk methods are told apart by their names: a text is parsed as a method exactly if it
-- is the name of the method, and any other text is an error.
pub parse_iff :
    (t : String) (m : BootFromDiskMethod)
    → (parse_boot_from_disk_method t ≡ ok m) ↔ (t ≡ method_name m)
unfolding parse_boot_from_disk_method method_name
parse_iff t m = ground (
  arith,
  eq_iff t "ipxe-exit",
  eq_iff t "http-404",
  eq_iff t "ipxe-sanboot",
  eq_iff "ipxe-exit" "http-404",
  eq_iff "ipxe-exit" "ipxe-sanboot",
  eq_iff "http-404" "ipxe-sanboot",
)
