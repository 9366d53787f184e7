-- ===== src/Bmc/Backends.antt =====
-- internal/provider/bmc: what the clients without a protocol of their own make of an operation
-- (manual/manual.go, api/api.go, ipmi/ipmi.go), and pxe/pxe.go.
use omni_infra_provider_bare.Base.{Bool, Option, String, if◌then◌else◌, none, some, str_eq, ◌<>◌}
use omni_infra_provider_bare.Effects.{
  Capabilities, Done, Error, PxeMode, Result, bios, err, invalid, ok, other_mode, uefi,
}

-- The operations of interface `backend`, less Close.
pub data Operation : Type 0 where
  reboot_op power_on_op power_off_op is_powered_on_op reset_boot_device_op : Operation
  set_pxe_boot_once_op : PxeMode → Operation

-- ErrNotSupported
abbrev pub not_supported : Error
not_supported = invalid "machine has no BMC: power management is manual"

-- Every operation of the manual client.
unfoldable pub manual_operation : Operation → Result Error Done
manual_operation reboot_op = err not_supported
manual_operation power_on_op = err not_supported
manual_operation power_off_op = err not_supported
manual_operation is_powered_on_op = err not_supported
manual_operation reset_boot_device_op = err not_supported
manual_operation (set_pxe_boot_once_op _) = err not_supported

-- The capability that an operation needs, as the comments of type Capabilities name them.
unfoldable pub is_supported : Capabilities → Operation → Bool
is_supported caps reboot_op = caps.can_reboot
is_supported caps power_on_op = caps.power_control
is_supported caps power_off_op = caps.power_control
is_supported caps is_powered_on_op = caps.power_state
is_supported caps reset_boot_device_op = caps.boot_device_control
is_supported caps (set_pxe_boot_once_op _) = caps.boot_device_control

-- The requests of the IPMI library.
pub data ChassisControl : Type 0 where
  power_cycle power_up power_down : ChassisControl

pub data BiosBootType : Type 0 where
  legacy efi : BiosBootType

pub data IpmiRequest : Type 0 where
  chassis_control : ChassisControl → IpmiRequest
  get_chassis_status : IpmiRequest
  force_pxe no_override : BiosBootType → IpmiRequest

-- The request that an operation of the IPMI client sends.
unfoldable pub ipmi_operation : Operation → Result Error IpmiRequest
ipmi_operation reboot_op = ok (chassis_control power_cycle)
ipmi_operation power_on_op = ok (chassis_control power_up)
ipmi_operation power_off_op = ok (chassis_control power_down)
ipmi_operation is_powered_on_op = ok get_chassis_status
ipmi_operation reset_boot_device_op = ok (no_override efi)
ipmi_operation (set_pxe_boot_once_op bios) = ok (force_pxe legacy)
ipmi_operation (set_pxe_boot_once_op uefi) = ok (force_pxe efi)
ipmi_operation (set_pxe_boot_once_op (other_mode m)) =
    err (invalid ("unsupported mode \"" <> m <> "\""))

-- ParseBootMode
unfoldable pub parse_boot_mode : String → Result Error PxeMode
parse_boot_mode s =
    if str_eq s "bios"
    then ok bios
    else if str_eq s "uefi"
    then ok uefi
    else err (invalid ("unknown boot mode: " <> s))

-- The method and the path of the request that an operation of the API client sends; the boot device
-- cannot be reset.
pub data HttpMethod : Type 0 where
  post_method get_method : HttpMethod

unfoldable pub api_operation : Operation → Option (HttpMethod × String)
api_operation reboot_op = some (post_method, "/reboot")
api_operation power_on_op = some (post_method, "/poweron")
api_operation power_off_op = some (post_method, "/poweroff")
api_operation (set_pxe_boot_once_op _) = some (post_method, "/pxeboot")
api_operation is_powered_on_op = some (get_method, "/status")
api_operation reset_boot_device_op = none
