-- ===== src/Controllers/MachineStatus/Reconcile.antt =====
-- Reconcile and MapInput of internal/provider/controllers/machine_status.go: the finalizer on a machine,
-- and the removal of its status. The runtime is a parameter.
use omni_infra_provider_bare.Base.{
  Bool, List, Option, String, [], any, arith, false, if◌then◌else◌, none, some, str_eq, true, ◌++◌,
  ◌<>◌, ◌||◌, ◌↔◌, ◌∷◌, ◌≡◌, ◌⊎◌,
}
use omni_infra_provider_bare.Resources.{InfraMachine}
use omni_infra_provider_bare.Machine.{is_tearing_down_phase}
use omni_infra_provider_bare.Effects.{Done, Result, err, ok}

-- An error of the runtime, which may be that the resource is not there.
pub data RuntimeError : Type 0 where
  not_there : RuntimeError
  refused : String → RuntimeError

-- What is asked of the runtime, in order.
pub data Step : Type 0 where
  teardown_status destroy_status remove_machine_finalizer add_machine_finalizer : Step

-- How it answers: whether the status is ready to be destroyed, and the errors of the other steps.
pub record Runtime : Type 0 where
  pub teardown : Result RuntimeError Bool
  pub destroy : Option RuntimeError
  pub removing : Option RuntimeError
  pub adding : Option RuntimeError

abbrev pub Steps : Type 0 → Type 0
Steps A = List Step × Result RuntimeError A

abbrev then_steps : {A B : Type 0} → Steps A → (A → Steps B) → Steps B
then_steps (steps, ok a) k = let (more, r) = k a in (steps ++ more, r)
then_steps (steps, err e) k = (steps, err e)

-- An error, unless it is that the resource is not there.
abbrev unless_not_there : Option RuntimeError → Result RuntimeError Done
unless_not_there none = ok tt
unless_not_there (some not_there) = ok tt
unless_not_there (some (refused text)) = err (refused text)

module _ (r : Runtime) where
  -- The closure `remove`: whether the status is gone.
  unfoldable pub remove : Steps Bool
  remove = elim r.teardown [
    | err not_there ↦ (teardown_status ∷ [], ok true)
    | err (refused text) ↦ (teardown_status ∷ [], err (refused text))
    | ok false ↦ (teardown_status ∷ [], ok false)
    | ok true ↦ (
      teardown_status ∷ destroy_status ∷ [],
      elim (unless_not_there r.destroy) [ ok _ ↦ ok true | err e ↦ err e ],
    )
  ]

  unfoldable pub reconcile_tearing_down : Steps Done
  unfolding remove
  reconcile_tearing_down = then_steps remove λ removed.
      if removed then (remove_machine_finalizer ∷ [], unless_not_there r.removing) else ([], ok tt)

  unfoldable pub reconcile_running : Steps Done
  reconcile_running = (add_machine_finalizer ∷ [], elim r.adding [ none ↦ ok tt | some e ↦ err e ])

  -- A machine that is not there is torn down.
  unfoldable pub reconcile : Result RuntimeError InfraMachine → Steps Done
  unfolding reconcile_tearing_down reconcile_running
  reconcile (err not_there) = reconcile_tearing_down
  reconcile (err (refused text)) = ([], err (refused text))
  reconcile (ok m) =
      if is_tearing_down_phase m.phase then reconcile_tearing_down else reconcile_running

-- MapInput: the id of the machine that an input is about, by the input's type.
unfoldable pub map_input : (bmc_type machine_type type id : String) → Result String String
map_input bmc_type machine_type type id =
    if str_eq type bmc_type || str_eq type machine_type
    then ok id
    else err ("unexpected resource type " <> type)

-- The status is known to be gone.
abbrev pub IsGone : Runtime → Type 0
IsGone r =
    (r.teardown ≡ err not_there)
    ⊎ ((r.teardown ≡ ok true) × ((r.destroy ≡ none) ⊎ (r.destroy ≡ some not_there)))

abbrev pub is_removal : Step → Bool
is_removal remove_machine_finalizer = true
is_removal _ = false

abbrev pub is_tearing_down : Result RuntimeError InfraMachine → Bool
is_tearing_down (err not_there) = true
is_tearing_down (err (refused _)) = false
is_tearing_down (ok m) = is_tearing_down_phase m.phase

-- The controller lets go of a machine exactly if the machine is torn down or not there, and its status
-- is gone.
pub finalizer_removed_iff :
    (r : Runtime) (machine : Result RuntimeError InfraMachine)
    → (any is_removal (reconcile r machine).0 ≡ true)
      ↔ ((is_tearing_down machine ≡ true) × IsGone r)
unfolding reconcile reconcile_tearing_down reconcile_running remove
finalizer_removed_iff r machine = ground arith
