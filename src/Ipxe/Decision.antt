-- ===== src/Ipxe/Decision.antt =====
-- The decision of internal/provider/ipxe/handler.go: makeBootDecision, and ServeHTTP around it.
use omni_infra_provider_bare.Base.{
  Bool, List, Option, String, [], false, fields, if◌then◌else◌, none, some, str_eq, ℕ, ◌&&◌, ◌++◌,
  ◌<>◌,
}
use omni_infra_provider_bare.Resources.{InfraMachine}
use omni_infra_provider_bare.Machine.{
  BootMode, agent_pxe, is_rejected, required_boot_mode, talos_disk, talos_pxe,
}
use omni_infra_provider_bare.Effects.{
  Error, Result, err, failed, invalid, ok, requeue, skip, wrapped,
}
use omni_infra_provider_bare.Controllers.Common.{Read}
use omni_infra_provider_bare.Ipxe.{
  BootDecision, BootFromDiskMethod, BuildArch, Handler, Reads, Services, boot_into_agent_mode,
  boot_via_factory, build_arch, console_kernel_args, exit_script, http_404, ipxe_exit, ipxe_sanboot,
  not_found, page, sanboot_script,
}

-- A decision that is an error: the status that makeBootDecision returns with it, 0 if it returns none.
pub record Refusal : Type 0 where
  pub status_code : ℕ
  pub error_text : String

abbrev pub error_text : Error → String
error_text (failed f) = f.message
error_text (wrapped text f) = text <> ": " <> f.message
error_text (invalid text) = text
error_text (skip text) = text
error_text (requeue _) = ""

abbrev refusing : {A : Type 0} → ℕ → String → Result Error A → Result Refusal A
refusing status text (ok a) = ok a
refusing status text (err e) =
    err (record { status_code = status; error_text = text <> error_text e })

-- `if err != nil { return bootDecision{}, err }`
abbrev after_read :
    {A : Type 0} → Read A → (Option A → Result Refusal BootDecision) → Result Refusal BootDecision
after_read (ok a) k = k a
after_read (err f) k = err (record { status_code = 0; error_text = f.message })

abbrev user_kernel_args : Option InfraMachine → List String
user_kernel_args none = []
user_kernel_args (some m) = fields m.extra_kernel_args

-- The two early returns for a machine that exists.
abbrev turned_away : Option InfraMachine → Option BootDecision
turned_away none = none
turned_away (some m) =
    if m.cordoned
    then some (not_found "machine is cordoned")
    else if is_rejected m.acceptance_status
    then some (not_found "")
    else none

abbrev talos_version_of : Option InfraMachine → String
talos_version_of none = ""
talos_version_of (some m) = m.cluster_talos_version

abbrev extensions_of : Option InfraMachine → List String
extensions_of none = []
extensions_of (some m) = m.extensions

abbrev pub boot_from_disk : BootFromDiskMethod → BootDecision
boot_from_disk http_404 = not_found ""
boot_from_disk ipxe_sanboot = page sanboot_script
boot_from_disk ipxe_exit = page exit_script

module _ (h : Handler) (s : Services) where
  -- The switch on the boot mode. Talos is booted only for a machine that exists, whose fields the code
  -- reads there without a test.
  unfoldable pub boot_as : BootMode → BuildArch → Option InfraMachine → Result Refusal BootDecision
  unfolding boot_into_agent_mode boot_via_factory
  boot_as agent_pxe arch machine =
      refusing 500 "failed to boot into agent mode: "
        (boot_into_agent_mode h s arch (user_kernel_args machine))
  boot_as talos_pxe arch machine = refusing 500 "" (
      boot_via_factory h s (record {
        agent_mode = false;
        talos_version = talos_version_of machine;
        arch = arch;
        extensions = extensions_of machine;
        kernel_args =
            h.default_kernel_args ++ (console_kernel_args arch ++ user_kernel_args machine);
      }))
  boot_as talos_disk arch machine = ok (boot_from_disk h.boot_from_disk_method)

  unfoldable pub make_boot_decision : (arch uuid : String) → Reads → Result Refusal BootDecision
  unfolding boot_as
  make_boot_decision arch uuid r =
      if str_eq uuid ""
      then err (record { status_code = 400; error_text = "missing uuid" })
      else after_read r.machine λ machine. after_read r.bmc λ bmc. after_read r.wipe λ wipe.
        elim (turned_away machine) [
          | some decision ↦ ok decision
          | none ↦ boot_as (required_boot_mode machine bmc wipe h.boot) (build_arch arch) machine
        ]

  -- What ServeHTTP does: the answer, and the PXE boot event that it sends. The answer to a boot request
  -- may fail to be written, and the channel may be full.
  unfoldable pub serve_http :
      (script arch uuid init_script : String)
      → Reads
      → (is_written has_room : Bool) → BootDecision × Option String
  unfolding make_boot_decision
  serve_http script arch uuid init_script r is_written has_room =
      if str_eq script "init.ipxe"
      then (page init_script, none)
      else if str_eq script "boot.ipxe"
      then elim (make_boot_decision arch uuid r) [
        | err e ↦ (
          record { body = "failed to make boot decision: " <> e.error_text; status_code = 500 },
          none,
        )
        | ok decision ↦ (decision, if is_written && has_room then some uuid else none)
      ]
      else (not_found "", none)
