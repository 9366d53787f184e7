-- ===== src/Dhcp/Packet.antt =====
-- internal/provider/dhcp/proxy.go: which packets are answered, and for which kind of firmware.
pub mod Laws
use omni_infra_provider_bare.Base.{
  Bool, Bytes, List, Option, String, [], any, false, has_prefix, if◌then◌else◌, length, none, some,
  str_eq, true, ℕ, ◌&&◌, ◌==◌, ◌∷◌,
}

-- The message types that the code names.
pub data MessageType : Type 0 where
  discover request offer ack other_type : MessageType

-- The client architectures of package iana that the code names.
pub data Arch : Type 0 where
  intel_x86pc efi_ia32 efi_x86_64 efi_bc efi_arm64 uboot_arm64 : Arch
  efi_x86_http efi_x86_64_http efi_arm64_http uboot_arm64_http : Arch
  other_arch : ℕ → Arch

-- What the code reads of a DHCP packet.
pub record Packet : Type 0 where
  pub message_type : MessageType
  -- option 93 is there
  pub has_client_arch : Bool
  pub client_arch : List Arch
  pub hw_addr : Bytes
  pub user_class : List String
  -- option 97, empty if it is not there
  pub machine_identifier : Bytes
  -- option 60
  pub class_identifier : Option String

-- type Firmware
pub data Firmware : Type 0 where
  unsupported x86_pc x86_efi arm_efi x86_ipxe x86_http arm_http rpi : Firmware

-- const Port4011
abbrev pub port_4011 : ℕ
port_4011 = 4011

abbrev same_type : MessageType → MessageType → Bool
same_type discover discover = true
same_type request request = true
same_type offer offer = true
same_type ack ack = true
same_type other_type other_type = true
same_type _ _ = false

abbrev pub expected_type : ℕ → MessageType
expected_type port = if port == port_4011 then request else discover

-- isBootDHCP, true for no error
unfoldable pub is_boot_dhcp : Packet → ℕ → Bool
is_boot_dhcp m port = same_type m.message_type (expected_type port) && m.has_client_arch

-- The switch in the loop of validateDHCP; an architecture that it does not name changes nothing.
abbrev pub firmware_of : Arch → Firmware → Firmware
firmware_of intel_x86pc fw = x86_pc
firmware_of efi_ia32 fw = x86_efi
firmware_of efi_x86_64 fw = x86_efi
firmware_of efi_bc fw = x86_efi
firmware_of efi_arm64 fw = arm_efi
firmware_of uboot_arm64 fw = arm_efi
firmware_of efi_x86_http fw = x86_http
firmware_of efi_x86_64_http fw = x86_http
firmware_of efi_arm64_http fw = arm_http
firmware_of uboot_arm64_http fw = arm_http
firmware_of (other_arch n) fw = fw

unfoldable pub scan_arches : List Arch → Firmware → Firmware
scan_arches [] fw = fw
scan_arches (a ∷ rest) fw = scan_arches rest (firmware_of a fw)

-- var raspberryPiOUIs
abbrev pub raspberry_pi_ouis : List Bytes
raspberry_pi_ouis =
    (0xb8 ∷ 0x27 ∷ 0xeb ∷ [])
    ∷ (0xdc ∷ 0xa6 ∷ 0x32 ∷ [])
    ∷ (0xe4 ∷ 0x5f ∷ 0x01 ∷ [])
    ∷ (0xd8 ∷ 0x3a ∷ 0xdd ∷ [])
    ∷ (0x28 ∷ 0xcd ∷ 0xc1 ∷ [])
    ∷ (0x2c ∷ 0xcf ∷ 0x67 ∷ [])
    ∷ []

-- The first three bytes are one of the prefixes; an address of fewer bytes has none of them.
unfoldable pub is_raspberry_pi : Bytes → Bool
is_raspberry_pi hw = any (λ oui. has_prefix oui hw) raspberry_pi_ouis

abbrev pub is_x86_pc : Firmware → Bool
is_x86_pc x86_pc = true
is_x86_pc _ = false

abbrev pub is_unsupported : Firmware → Bool
is_unsupported unsupported = true
is_unsupported _ = false

abbrev pub starts_ipxe : List String → Bool
starts_ipxe [] = false
starts_ipxe (c ∷ _) = str_eq c "iPXE"

abbrev first_is_zero : Bytes → Bool
first_is_zero [] = false
first_is_zero (b ∷ _) = b == 0

-- The switch on the length of the client's GUID.
unfoldable pub guid_ok : Bytes → Bool
guid_ok guid =
    if length guid == 0 then true else if length guid == 17 then first_is_zero guid else false

-- The changes of the firmware type after the loop: for a board, and for a client with iPXE in its ROM.
abbrev pub detect_rpi : Packet → Firmware → Firmware
detect_rpi m fw = if is_x86_pc fw && is_raspberry_pi m.hw_addr then rpi else fw

abbrev pub detect_ipxe : Packet → Firmware → Firmware
detect_ipxe m fw = if starts_ipxe m.user_class && is_x86_pc fw then x86_ipxe else fw

unfoldable pub validate_dhcp : Packet → Option Firmware
validate_dhcp m =
    let fw = scan_arches m.client_arch unsupported in
    if is_unsupported fw
    then none
    else if guid_ok m.machine_identifier
    then some (detect_ipxe m (detect_rpi m fw))
    else none
