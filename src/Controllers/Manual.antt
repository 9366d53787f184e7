-- ===== src/Controllers/Manual.antt =====
-- internal/provider/bmc/bmc.go in the place of the environment's client: what the power operation
-- controller and the reboot controller do with the clients of the real factory.
mod Tests
use omni_infra_provider_bare.Base.{Bool, [], any, arith, false, some, true, ◌<>◌, ◌≡◌}
use omni_infra_provider_bare.Resources.{BmcConfiguration, PowerOperation, RebootStatus}
use omni_infra_provider_bare.Effects.{
  Call, Capabilities, Env, Error, Failure, Result, Trace, agent_reboot, err, failed, final, invalid,
  is_power_command, ok, other_code, requeue, skip, wrapped,
}
use omni_infra_provider_bare.Bmc.{
  Cache, Endpoints, FactoryOptions, Kind, capabilities_of, factory_get_client,
}
use omni_infra_provider_bare.Controllers.RebootStatus
use omni_infra_provider_bare.Controllers.RebootStatus.Laws
use omni_infra_provider_bare.Controllers.Removal.Laws.{no_power_command}
use omni_infra_provider_bare.Controllers.RebootStatus.NoBmc.{no_bmc_command, reboots}
use omni_infra_provider_bare.Controllers.Removal.{finalizer_removal}
use omni_infra_provider_bare.Controllers.PowerOperation.{Helper, Inputs, acknowledge, transform}

-- The error of the factory as the controllers see it.
abbrev pub failure_of : Error → Failure
failure_of (failed f) = f
failure_of (wrapped text f) = record f { message = text <> ": " <> f.message }
failure_of (invalid text) = record { code = other_code; message = text; context_ended = false }
failure_of (skip text) = record { code = other_code; message = text; context_ended = false }
failure_of (requeue _) = record { code = other_code; message = ""; context_ended = false }

abbrev pub client_of : Result Error Kind → Result Failure Capabilities
client_of (ok kind) = ok (capabilities_of kind)
client_of (err e) = err (failure_of e)

-- An environment whose clients come from the factory, with its cache at every moment.
unfoldable pub with_factory : FactoryOptions → Endpoints → (Trace → Cache) → Env → Env
with_factory options ends cache env = record env {
  client = λ t c. client_of (factory_get_client options ends (some c) (cache t)).0;
}

-- A call that drives a BMC.
abbrev pub is_bmc_command : Call → Bool
is_bmc_command (agent_reboot _) = false
is_bmc_command c = is_power_command c

never_powered :
    (options : FactoryOptions) (ends : Endpoints) (cache : Trace → Cache) (env : Env)
    (helper : Helper) (i : Inputs) (op : PowerOperation) (c : BmcConfiguration)
    → i.bmc ≡ ok (some c)
    → c.manual ≡ true
    → let w = final (
        transform
          (with_factory options ends cache env)
          helper
          i
          (record { res = op; trace = [] })) in
      (any is_power_command w.trace ≡ false)
      × (w.res.last_power_operation ≡ op.last_power_operation)
      × (w.res.last_power_on_timestamp ≡ op.last_power_on_timestamp)
unfolding transform with_factory factory_get_client capabilities_of acknowledge
never_powered options ends cache env helper i op c b m = ground arith

cannot_reboot :
    (options : FactoryOptions) (ends : Endpoints) (cache : Trace → Cache) (env : Env)
    (c : BmcConfiguration)
    → c.manual ≡ true
    → (t : Trace) → reboots ((with_factory options ends cache env).client t c) ≡ false
unfolding with_factory factory_get_client capabilities_of
cannot_reboot options ends cache env c m t = ground arith

-- A machine whose BMC configuration, as both controllers read it, is manual is never driven over a BMC, whatever else the
-- configuration holds, the options say and the machine's BMC would answer. The power operation
-- controller makes no power command for it and records no power operation. In a
-- reconciliation, the reboot controller neither powers it, nor reboots it over a BMC, nor sets its
-- boot device: at most it reboots it over its agent. On its removal, it makes no power command.
pub manual_never_driven :
    (options : FactoryOptions) (ends : Endpoints) (cache : Trace → Cache) (env : Env)
    (helper : Helper) (i : Inputs) (op : PowerOperation) (rebooter : RebootStatus.Helper)
    (ri : RebootStatus.Inputs) (st : RebootStatus.State) (c : BmcConfiguration)
    → i.bmc ≡ ok (some c)
    → ri.bmc ≡ ok (some c)
    → c.manual ≡ true
    → let real = with_factory options ends cache env in
      let w = final (transform real helper i (record { res = op; trace = [] })) in
      (any is_power_command w.trace ≡ false)
      × (w.res.last_power_operation ≡ op.last_power_operation)
      × (w.res.last_power_on_timestamp ≡ op.last_power_on_timestamp)
      × (any is_bmc_command (final (RebootStatus.Laws.run real rebooter ri st)).trace ≡ false)
      × (any is_power_command
            (final (finalizer_removal real rebooter ri (record { res = st; trace = [] }))).trace
          ≡ false)
manual_never_driven options ends cache env helper i op rebooter ri st c b rb m =
    let real = with_factory options ends cache env in
    let (quiet, same, timed) = never_powered options ends cache env helper i op c b m in
    let cannot = cannot_reboot options ends cache env c m in
    (
      quiet,
      same,
      timed,
      no_bmc_command real rebooter ri st c rb cannot,
      no_power_command real rebooter ri st c rb (cannot []),
    )
