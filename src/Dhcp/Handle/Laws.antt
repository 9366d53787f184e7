-- ===== src/Dhcp/Handle/Laws.antt =====
-- Which packets are answered, and that a board is warned of once.
use omni_infra_provider_bare.Base.{
  All, Bool, Bool-cases, Bytes, List, Option-cases, [], any, arith, false, inl, inr, not, refl,
  some, true, ℕ, ◌&&◌, ◌↔◌, ◌∷◌, ◌≡◌, ◌≢◌, ◌⊎◌,
}
use omni_infra_provider_bare.Dhcp.Packet.{
  Firmware, Packet, ack, discover, is_boot_dhcp, offer, port_4011, request, rpi, validate_dhcp,
}
use omni_infra_provider_bare.Dhcp.Offer.{Response, ServerIp, offer_dhcp}
use omni_infra_provider_bare.Dhcp.Handle.{
  ProxyState, handle_all, handle_packet, is_rpi, same_bytes, warn_no_rpi_firmware,
}

-- A packet is answered exactly when it is a PXE boot packet for the port, its firmware is known, it is
-- not from a Raspberry Pi that is not served, and, from a served one, the provider's address is IPv4;
-- the answer is then the offer for that firmware.
pub answered_iff :
    (serve : Bool) (ip : ServerIp) (port : ℕ) (m : Packet) (s : ProxyState) (r : Response)
    → ((handle_packet serve ip port m s).0 ≡ some r) ↔ (
        (is_boot_dhcp m port ≡ true)
        × ((fw : Firmware) × (validate_dhcp m ≡ some fw)
            × ((is_rpi fw && not serve) ≡ false)
            × (offer_dhcp m ip fw port ≡ some r)))
unfolding handle_packet
answered_iff serve ip port m s r = ground arith

-- The reply fits the request: an answered packet is a request that gets an acknowledgment on port 4011,
-- and a discovery that gets an offer on any other.
pub reply_fits :
    (serve : Bool) (ip : ServerIp) (port : ℕ) (m : Packet) (s : ProxyState) (r : Response)
    → (handle_packet serve ip port m s).0 ≡ some r
    → ((port ≡ port_4011) × (m.message_type ≡ request) × (r.message_type ≡ ack))
      ⊎ ((port ≢ port_4011) × (m.message_type ≡ discover) × (r.message_type ≡ offer))
unfolding handle_packet is_boot_dhcp offer_dhcp
reply_fits serve ip port m s r h = ground arith

same_bytes_self : (b : Bytes) → same_bytes b b ≡ true
same_bytes_self [] = refl
same_bytes_self (x ∷ xs) = ground (arith, same_bytes_self xs)

-- A packet that makes no new warning.
abbrev IsQuiet : Bool → ℕ → ProxyState → Packet → Type 0
IsQuiet serve port s m =
    is_boot_dhcp m port ≡ true
    → validate_dhcp m ≡ some rpi
    → serve ≡ false
    → any (same_bytes m.hw_addr) s.warned ≡ true

module _ (serve : Bool) (ip : ServerIp) (port : ℕ) where
  handle_packet-IsQuiet :
      (m : Packet) (s : ProxyState) → IsQuiet serve port (handle_packet serve ip port m s).1 m
  unfolding handle_packet warn_no_rpi_firmware
  handle_packet-IsQuiet m s a b c = ground (arith, same_bytes_self m.hw_addr)

  warned_stays :
      (hw : Bytes) (m : Packet) (s : ProxyState)
      → any (same_bytes hw) s.warned ≡ true
      → any (same_bytes hw) (handle_packet serve ip port m s).1.warned ≡ true
  unfolding handle_packet warn_no_rpi_firmware
  warned_stays hw m s h = ground arith

  warned_stays_all :
      (hw : Bytes) (ms : List Packet) (s : ProxyState)
      → any (same_bytes hw) s.warned ≡ true
      → any (same_bytes hw) (handle_all serve ip port ms s).1.warned ≡ true
  unfolding handle_all
  warned_stays_all hw [] s h = h
  warned_stays_all hw (m ∷ ms) s h =
      warned_stays_all hw ms (handle_packet serve ip port m s).1 (warned_stays hw m s h)

  no_new_warning :
      (m : Packet) (s : ProxyState)
      → is_boot_dhcp m port ≡ true
      → serve ≡ false
      → (fw : Firmware) → validate_dhcp m ≡ some fw
      → IsQuiet serve port s m
      → (handle_packet serve ip port m s).1 ≡ s
  unfolding handle_packet warn_no_rpi_firmware
  no_new_warning m s a b rpi c q = let e = q a c b in ground arith
  no_new_warning m s a b _ c q = ground arith

  unwarned_unchanged :
      (m : Packet) (s : ProxyState)
      → IsQuiet serve port s m
      → (handle_packet serve ip port m s).1 ≡ s
  unfolding handle_packet warn_no_rpi_firmware
  unwarned_unchanged m s q = elim (Bool-cases (is_boot_dhcp m port)) [
    | inl a ↦ elim (Bool-cases serve) [
      | inl b ↦ ground arith
      | inr b ↦ elim (Option-cases (validate_dhcp m)) [
        | inl c ↦ ground arith
        | inr (fw, c) ↦ no_new_warning m s a b fw c q
      ]
    ]
    | inr a ↦ ground arith
  ]

  handle_all-IsQuiet :
      (ms : List Packet) (s : ProxyState)
      → All (IsQuiet serve port (handle_all serve ip port ms s).1) ms
  unfolding handle_all
  handle_all-IsQuiet [] s = tt
  handle_all-IsQuiet (m ∷ ms) s = (
    λ a b c.
        warned_stays_all m.hw_addr ms (handle_packet serve ip port m s).1
          (handle_packet-IsQuiet m s a b c),
    handle_all-IsQuiet ms (handle_packet serve ip port m s).1,
  )

  handle_all_unchanged :
      (ms : List Packet) (s : ProxyState)
      → All (IsQuiet serve port s) ms
      → (handle_all serve ip port ms s).1 ≡ s
  unfolding handle_all
  handle_all_unchanged [] s h = refl
  handle_all_unchanged (m ∷ ms) s (q, h) =
      let e = unwarned_unchanged m s q in rw e (handle_all_unchanged ms s h)

-- A board is warned of once: packets that have been handled already, in any number of boards, add no
-- warning when they come again.
pub warned_once :
    (serve : Bool) (ip : ServerIp) (port : ℕ) (ms : List Packet) (s : ProxyState)
    → let s' = (handle_all serve ip port ms s).1 in (handle_all serve ip port ms s').1 ≡ s'
warned_once serve ip port ms s =
    handle_all_unchanged serve ip port ms (handle_all serve ip port ms s).1
      (handle_all-IsQuiet serve ip port ms s)
