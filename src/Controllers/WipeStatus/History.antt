-- ===== src/Controllers/WipeStatus/History.antt =====
-- Every history of a wipe status: the calls of `transform` in internal/provider/controllers/wipe_status.go
-- on it, with any inputs and answers, in any number.
use omni_infra_provider_bare.Base.{
  List, Option, String, [], ap, arith, false, inl, some, sym, true, ◌∙◌, ◌∷◌, ◌≡◌, ◌⊎◌,
}
use omni_infra_provider_bare.Resources.{BmcConfiguration, InfraMachine, WipeStatus}
use omni_infra_provider_bare.Machine.{BootOptions, required_boot_mode, talos_pxe}
use omni_infra_provider_bare.Machine.Laws.{required_boot_mode-talos_pxe_iff}
use omni_infra_provider_bare.Effects.{Env, Error, Trace, done, ok, stop, wipe_disks}
use omni_infra_provider_bare.Controllers.WipeStatus.{Inputs, transform, wiped}
use omni_infra_provider_bare.Controllers.WipeStatus.Laws.{failure_keeps_status, run}

-- A wipe status as it is created.
abbrev pub new_wipe_status : WipeStatus
new_wipe_status = record {
  last_wipe_id = "";
  last_wipe_install_event_id = 0;
  initial_wipe_done = false;
  wiped_node_unique_token = "";
}

-- The calls that ended without an error, the latest first.
abbrev pub Past : Type 0
Past = List (Env × Inputs)

-- The statuses that a history can reach.
pub data Reached : WipeStatus → Past → Type 0 where
  created : Reached new_wipe_status []
  succeeded :
      {w v : WipeStatus} {past : Past} (env : Env) (i : Inputs) (t : Trace)
      → Reached w past
      → run env i w ≡ done tt (record { res = v; trace = t })
      → Reached v ((env, i) ∷ past)
  refused :
      {w v : WipeStatus} {past : Past} (env : Env) (i : Inputs) (e : Error) (t : Trace)
      → Reached w past
      → run env i w ≡ stop e (record { res = v; trace = t })
      → Reached v past

-- An agent was told to wipe the disks for a wipe id, and did.
abbrev pub WasWiped : String → Past → Type 0
WasWiped id [] = ⊥
WasWiped id ((env, i) ∷ past) =
    ((i.machine.wipe_id ≡ id) × (env.act [] (wipe_disks i.machine.id) ≡ ok tt)) ⊎ WasWiped id past

success_wipes :
    (env : Env) (i : Inputs) (w v : WipeStatus) (t : Trace)
    → run env i w ≡ done tt (record { res = v; trace = t })
    → (i.machine.wipe_id ≡ v.last_wipe_id) × (env.act [] (wipe_disks i.machine.id) ≡ ok tt)
unfolding transform wiped
success_wipes env i w v t h = ground arith

refusal_keeps :
    (env : Env) (i : Inputs) (w v : WipeStatus) (e : Error) (t : Trace)
    → run env i w ≡ stop e (record { res = v; trace = t })
    → v ≡ w
refusal_keeps env i w v e t h = failure_keeps_status env i w h

Reached-WasWiped :
    {w : WipeStatus} {past : Past}
    → Reached w past
    → w.initial_wipe_done ≡ true
    → WasWiped w.last_wipe_id past
Reached-WasWiped created d = absurd (ground arith)
Reached-WasWiped (succeeded {w} {v} env i t r h) d = inl (success_wipes env i w v t h)
Reached-WasWiped (refused {w} {v} {past} env i e t r h) d =
    let same = refusal_keeps env i w v e t h in
    rw (ap (λ (x : WipeStatus). x.last_wipe_id) same)
      (Reached-WasWiped r (ap (λ (x : WipeStatus). x.initial_wipe_done) (sym same) ∙ d))

-- Talos is booted over the network after a wipe only: in every history of a machine's wipe status, with
-- any inputs and answers, the boot mode of a machine is Talos over the network only if a call in that history told
-- an agent to wipe the disks, for the wipe id that the machine has now, and the agent reported success.
pub talos_only_wiped :
    {w : WipeStatus} {past : Past}
    → Reached w past
    → (m : InfraMachine) (bmc : Option BmcConfiguration) (o : BootOptions)
    → required_boot_mode (some m) bmc (some w) o ≡ talos_pxe
    → WasWiped m.wipe_id past
talos_only_wiped {w} {past} r m bmc o h =
    let (cleared, _) = (required_boot_mode-talos_pxe_iff m bmc w o).0 h in
    rw cleared.wiped.current (Reached-WasWiped r cleared.wiped.initial)
