-- ===== src/Provider/Components.antt =====
-- The end of Run of internal/provider/provider.go: the registration of the controllers, the components, and
-- runComponents. The runtime, the errgroup and the components themselves are parameters.
pub mod Steps
pub mod Laws
mod Tests
use omni_infra_provider_bare.Base.{
  Bool, List, Option, String, [], false, if◌then◌else◌, map, none, not, some, str_eq, suc, true,
  zero, ℕ, ◌<>◌, ◌∷◌, ◌≡◌,
}
use omni_infra_provider_bare.Effects.{Result, err, ok}

-- ensureProviderStatus: how the creation of the status ends, and an error of the update after a conflict.
pub data Created : Type 0 where
  created conflict : Created
  not_created : String → Created

-- Whether the status was updated, and the error.
unfoldable pub ensure_provider_status : Created → (update : Option String) → Bool × Option String
ensure_provider_status created update = (false, none)
ensure_provider_status (not_created text) update = (false, some text)
ensure_provider_status conflict update = (true, update)

-- buildOmniAPIClient, with the call that makes the client.
unfoldable pub build_omni_api_client :
    {A : Type 0} → (endpoint : String) → Result String A → Result String A
build_omni_api_client endpoint client =
    if str_eq endpoint "" then err "missing Omni API endpoint" else client

pub data Controller : Type 0 where
  provider_health_status machine_status infra_machine_status : Controller
  bmc_configuration power_operation reboot_status wipe_status : Controller

-- The controllers on the queue, in the order of their registration.
abbrev pub q_controllers : List Controller
q_controllers =
    machine_status ∷ infra_machine_status ∷ bmc_configuration ∷ power_operation ∷ reboot_status
    ∷ wipe_status ∷ []

pub data RegisterError : Type 0 where
  health_check_not_made health_check_not_registered q_controller_not_registered :
      String → RegisterError

module _ (register : Controller → Option String) where
  -- The loop: the controllers that are registered, the latest first.
  unfoldable pub register_all :
      List Controller → (registered : List Controller) → Result RegisterError (List Controller)
  register_all [] registered = ok registered
  register_all (c ∷ rest) registered = elim (register c) [
    | some text ↦ err (q_controller_not_registered text)
    | none ↦ register_all rest (c ∷ registered)
  ]

  -- `health` is the error of making the health check's controller.
  unfoldable pub register_controllers :
      (health : Option String) → Result RegisterError (List Controller)
  unfolding register_all
  register_controllers health = elim health [
    | some text ↦ err (health_check_not_made text)
    | none ↦ elim (register provider_health_status) [
      | some text ↦ err (health_check_not_registered text)
      | none ↦ register_all q_controllers (provider_health_status ∷ [])
    ]
  ]

pub data Component : Type 0 where
  cosi_runtime server tftp_server dhcp_proxy : Component

unfoldable pub components : (disable_dhcp_proxy : Bool) → List Component
components disable_dhcp_proxy =
    cosi_runtime ∷ server ∷ tftp_server ∷ (if not disable_dhcp_proxy then dhcp_proxy ∷ [] else [])

-- The goroutine of a component: its run is on, it has returned and the deferred cancel is next, or the
-- goroutine has returned.
pub data GoPhase : Type 0 where
  running : GoPhase
  returning ended : (error : Option String) → GoPhase

-- What happens to a goroutine: its component's run returns, because of the context or not, or the deferred
-- cancel is called and the goroutine returns the error.
pub data GoEvent : Type 0 where
  returns stops : (error : Option String) → GoEvent
  cancels : GoEvent

-- Its next phase, and whether the context is canceled then. That a run stops because of the context needs
-- the context to be canceled.
unfoldable pub go_step : (is_canceled : Bool) → GoEvent → GoPhase → Option (GoPhase × Bool)
go_step c (returns error) running = some (returning error, c)
go_step true (stops error) running = some (returning error, true)
go_step false (stops error) running = none
go_step c cancels running = none
go_step c (returns error) (returning e) = none
go_step c (stops error) (returning e) = none
go_step c cancels (returning e) = some (ended e, true)
go_step c event (ended e) = none

-- The goroutines of runComponents, whether the context is canceled, and the error that the errgroup keeps,
-- which is the first.
pub record Group : Type 0 where
  pub goroutines : List (Component × GoPhase)
  pub is_canceled : Bool
  pub error : Option String

abbrev pub error_of : GoPhase → Option String
error_of running = none
error_of (returning e) = none
error_of (ended e) = e

abbrev pub first_error : Option String → Option String → Option String
first_error none e = e
first_error (some earlier) e = some earlier

-- runComponents has started a goroutine for each component.
unfoldable pub started : List Component → Group
started cs = record { goroutines = map (λ c. (c, running)) cs; is_canceled = false; error = none }

-- An event of the goroutine at a place, or `none` if it cannot happen.
unfoldable pub go_at :
    (is_canceled : Bool)
    → GoEvent
    → ℕ
    → List (Component × GoPhase)
    → Option (List (Component × GoPhase) × GoPhase × Bool)
unfolding go_step
go_at c event n [] = none
go_at c event zero ((name, phase) ∷ rest) = elim (go_step c event phase) [
  | none ↦ none
  | some (phase', c') ↦ some ((name, phase') ∷ rest, phase', c')
]
go_at c event (suc n) (g ∷ rest) = elim (go_at c event n rest) [
  | none ↦ none
  | some (rest', phase', c') ↦ some (g ∷ rest', phase', c')
]

unfoldable pub group_step : GoEvent → ℕ → Group → Option Group
unfolding go_at
group_step event n g = elim (go_at g.is_canceled event n g.goroutines) [
  | none ↦ none
  | some (gs, phase', c') ↦
      some (record {
        goroutines = gs;
        is_canceled = c';
        error = first_error g.error (error_of phase');
      })
]

-- The groups that runComponents can reach: the context that Run was given may be canceled at any time.
pub data Reach (cs : List Component) : Group → Type 0 where
  start : Reach cs (started cs)
  canceled : {g : Group} → Reach cs g → Reach cs (record g { is_canceled = true })
  next :
      {g g' : Group}
      → Reach cs g
      → (event : GoEvent) (n : ℕ) → group_step event n g ≡ some g'
      → Reach cs g'

-- What runComponents returns, by the error that the group waits for.
unfoldable pub run_components : (wait : Option String) → Option String
run_components none = none
run_components (some text) = some ("failed to run components: " <> text)
