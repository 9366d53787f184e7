-- ===== src/Dhcp/Handle.antt =====
-- internal/provider/dhcp/proxy.go: what the proxy does with a packet.
pub mod Laws
use omni_infra_provider_bare.Base.{
  Bool, Bytes, List, Option, [], any, false, if◌then◌else◌, none, not, some, true, ℕ, ◌&&◌, ◌+◌,
  ◌==◌, ◌∷◌,
}
use omni_infra_provider_bare.Dhcp.Packet.{Firmware, Packet, is_boot_dhcp, rpi, validate_dhcp}
use omni_infra_provider_bare.Dhcp.Offer.{Response, ServerIp, offer_dhcp}

-- warnedNoRPiFirmware, the set of the hardware addresses, and how often the log was written to
pub record ProxyState : Type 0 where
  pub warned : List Bytes
  pub warnings : ℕ

abbrev pub same_bytes : Bytes → Bytes → Bool
same_bytes [] [] = true
same_bytes (x ∷ xs) (y ∷ ys) = x == y && same_bytes xs ys
same_bytes _ _ = false

-- `LoadOrStore`, and the warning unless the address was there
unfoldable pub warn_no_rpi_firmware : Bytes → ProxyState → ProxyState
warn_no_rpi_firmware hw s =
    if any (same_bytes hw) s.warned
    then s
    else record s { warned = hw ∷ s.warned; warnings = s.warnings + 1 }

abbrev pub is_rpi : Firmware → Bool
is_rpi rpi = true
is_rpi _ = false

-- handlePacket: the response that is written, if any. ServeRaspberryPi comes first.
unfoldable pub handle_packet :
    Bool → ServerIp → ℕ → Packet → ProxyState → Option Response × ProxyState
handle_packet serve ip port m s =
    if is_boot_dhcp m port
    then elim (validate_dhcp m) [
      | none ↦ (none, s)
      | some fw ↦
          if is_rpi fw && not serve
          then (none, warn_no_rpi_firmware m.hw_addr s)
          else (offer_dhcp m ip fw port, s)
    ]
    else (none, s)

-- The packets of a run, in order.
unfoldable pub handle_all :
    Bool → ServerIp → ℕ → List Packet → ProxyState → List (Option Response) × ProxyState
handle_all serve ip port [] s = ([], s)
handle_all serve ip port (m ∷ ms) s =
    let (r, s') = handle_packet serve ip port m s in
    let (rs, s'') = handle_all serve ip port ms s' in (r ∷ rs, s'')
