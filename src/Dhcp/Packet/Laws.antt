-- ===== src/Dhcp/Packet/Laws.antt =====
-- How firmware is told apart.
use omni_infra_provider_bare.Base.{
  Bytes, List, [], arith, false, length, some, true, ◌↔◌, ◌∷◌, ◌≡◌, ◌≢◌,
}
use omni_infra_provider_bare.Dhcp.Packet.{
  Arch, Firmware, Packet, firmware_of, guid_ok, is_raspberry_pi, other_arch, rpi, scan_arches,
  starts_ipxe, unsupported, validate_dhcp, x86_ipxe, x86_pc,
}

-- The GUID is missing, or has 17 bytes of which the first is 0.
abbrev pub IsWellFormed : Bytes → Type 0
IsWellFormed [] = Unit {0}
IsWellFormed (b ∷ bs) = (length bs ≡ 16) × (b ≡ 0)

guid_ok_iff : (g : Bytes) → (guid_ok g ≡ true) ↔ IsWellFormed g
unfolding guid_ok
guid_ok_iff [] = ground arith
guid_ok_iff (b ∷ bs) = ground arith

-- What the loop over the architectures can give.
abbrev IsBase : Firmware → Type 0
IsBase rpi = ⊥
IsBase x86_ipxe = ⊥
IsBase _ = Unit {0}

scan_arches-IsBase :
    (arches : List Arch) (fw : Firmware) → IsBase fw → IsBase (scan_arches arches fw)
unfolding scan_arches
scan_arches-IsBase [] fw h = h
scan_arches-IsBase (a ∷ rest) fw h = scan_arches-IsBase rest (firmware_of a fw) (base a fw h)
  where
    base : (a : Arch) (fw : Firmware) → IsBase fw → IsBase (firmware_of a fw)
    base (other_arch n) fw h = h
    base _ fw h = tt

-- A board and a PC differ by the address only: a packet counts as from a Raspberry Pi exactly when its
-- GUID is well formed, its architectures are read as a legacy x86 PC, and its hardware address has a
-- prefix of Raspberry Pi.
pub validate-rpi_iff :
    (m : Packet)
    → (validate_dhcp m ≡ some rpi) ↔ (
        IsWellFormed m.machine_identifier
        × (scan_arches m.client_arch unsupported ≡ x86_pc)
        × (is_raspberry_pi m.hw_addr ≡ true))
unfolding validate_dhcp
validate-rpi_iff m =
    ground
      (arith, guid_ok_iff m.machine_identifier, scan_arches-IsBase m.client_arch unsupported tt)

-- A packet counts as from an iPXE ROM exactly when its GUID is well formed, its architectures are read
-- as a legacy x86 PC, its hardware address has no prefix of Raspberry Pi, and its first user class is
-- "iPXE".
pub validate-x86_ipxe_iff :
    (m : Packet)
    → (validate_dhcp m ≡ some x86_ipxe) ↔ (
        IsWellFormed m.machine_identifier
        × (scan_arches m.client_arch unsupported ≡ x86_pc)
        × (is_raspberry_pi m.hw_addr ≡ false)
        × (starts_ipxe m.user_class ≡ true))
unfolding validate_dhcp
validate-x86_ipxe_iff m =
    ground
      (arith, guid_ok_iff m.machine_identifier, scan_arches-IsBase m.client_arch unsupported tt)

-- Every other packet with a well formed GUID and an architecture that is known keeps the firmware of
-- its architectures, and no packet is accepted with another GUID or with unsupported firmware.
pub validate_other :
    (m : Packet) (fw : Firmware)
    → fw ≢ rpi
    → fw ≢ x86_ipxe
    → fw ≢ x86_pc
    → (validate_dhcp m ≡ some fw) ↔ (
        IsWellFormed m.machine_identifier
        × (scan_arches m.client_arch unsupported ≡ fw)
        × (fw ≢ unsupported))
unfolding validate_dhcp
validate_other m fw a b c = ground (arith, guid_ok_iff m.machine_identifier)
