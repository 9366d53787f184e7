-- ===== src/VirtualBmc/Hal/Tests.antt =====
-- A launcher that answers, and a PXE boot.
use omni_infra_provider_bare.Base.{Bool, [], false, none, true}
use omni_infra_provider_bare.Effects.{ok, uefi}
use omni_infra_provider_bare.Bmc.Api.{Http}
use omni_infra_provider_bare.Bmc.Backends.{
  IpmiRequest, Operation, chassis_control, force_pxe, get_chassis_status, no_override, power_cycle,
  power_down, power_up, set_pxe_boot_once_op,
}
use omni_infra_provider_bare.VirtualBmc.Hal.{BootFlags}
use omni_infra_provider_bare.VirtualBmc.Hal.Laws.{
  HalCall, power_cycle_call, power_state_call, set_boot_flags_call, set_power_call,
}

abbrev launcher : Http
launcher = record {
  new_request = λ method url. none;
  send = λ method url. ok (record { status_code = 200; decoded = ok true });
}

abbrev flags : Bool → BootFlags
flags forced = record { forces_pxe = forced; other_flags = [] }

abbrev dispatch : IpmiRequest → HalCall
dispatch (chassis_control power_cycle) = power_cycle_call
dispatch (chassis_control power_up) = set_power_call true
dispatch (chassis_control power_down) = set_power_call false
dispatch get_chassis_status = power_state_call
dispatch (force_pxe t) = set_boot_flags_call (flags true)
dispatch (no_override t) = set_boot_flags_call (flags false)

abbrev over_network : Operation
over_network = set_pxe_boot_once_op uefi
