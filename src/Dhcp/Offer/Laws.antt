-- ===== src/Dhcp/Offer/Laws.antt =====
-- What every response says.
use omni_infra_provider_bare.Base.{arith, none, some, ℕ, ◌↔◌, ◌≡◌, ◌≢◌, ◌⊎◌}
use omni_infra_provider_bare.Dhcp.Packet.{Firmware, Packet, rpi, unsupported}
use omni_infra_provider_bare.Dhcp.Offer.{
  Response, ServerIp, boot_file_directly, offer_dhcp, raspberry_pi_options, reply_type,
}

-- A response is refused exactly for an unsupported firmware, and for a Raspberry Pi when the provider's
-- address is not IPv4.
pub refused_iff :
    (m : Packet) (ip : ServerIp) (fw : Firmware) (port : ℕ)
    → (offer_dhcp m ip fw port ≡ none) ↔ ((fw ≡ unsupported) ⊎ ((fw ≡ rpi) × (ip.to4 ≡ none)))
unfolding offer_dhcp
refused_iff m ip fw port = ground arith

-- Every response names the provider and the way to boot: it has the message type of its port and the
-- provider's IPv4 address, if there is one, as the server identifier, and its address as the next
-- server; a file named in the header is
-- also option 67 and comes with the provider's TFTP server and the instruction to boot it directly;
-- and a response without option 67 is one for a Raspberry Pi, with its boot menu.
pub offer_complete :
    (m : Packet) (ip : ServerIp) (fw : Firmware) (port : ℕ) (r : Response)
    → offer_dhcp m ip fw port ≡ some r
    → (r.message_type ≡ reply_type port)
      × (r.server_identifier ≡ ip.to4)
      × (r.server_address ≡ ip.text)
      × ((r.boot_file_name ≡ "")
          ⊎ ((r.boot_file_option ≡ some r.boot_file_name)
              × (r.tftp_server_name ≡ some ip.text)
              × (r.vendor_specific ≡ some boot_file_directly)))
      × ((r.boot_file_option ≢ none)
          ⊎ ((fw ≡ rpi)
              × (r.tftp_server_name ≡ some ip.text)
              × (r.vendor_specific ≡ raspberry_pi_options ip)))
unfolding offer_dhcp
offer_complete m ip fw port r h = ground arith
