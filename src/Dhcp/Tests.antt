-- ===== src/Dhcp/Tests.antt =====
-- The answers to concrete packets.
use omni_infra_provider_bare.Base.{
  [], contains, false, index, none, refl, some, to_lower, true, ◌∷◌, ◌≡◌,
}
use omni_infra_provider_bare.Dhcp.Packet.{
  Packet, discover, efi_x86_64, guid_ok, intel_x86pc, is_boot_dhcp, scan_arches, validate_dhcp,
}
use omni_infra_provider_bare.Dhcp.Offer.{Response, ServerIp, base_response, offer_dhcp, tftp_boot}
use omni_infra_provider_bare.Dhcp.Handle.{ProxyState, handle_packet}

abbrev board : Packet
board = record {
  message_type = discover;
  has_client_arch = true;
  client_arch = intel_x86pc ∷ [];
  hw_addr = 0xb8 ∷ 0x27 ∷ 0xeb ∷ 1 ∷ 2 ∷ 3 ∷ [];
  user_class = [];
  machine_identifier = [];
  class_identifier = none;
}

abbrev pc : Packet
pc = record board { client_arch = efi_x86_64 ∷ [] }

abbrev home : ServerIp
home = record { text = "10.0.0.1"; to4 = some (10 ∷ 0 ∷ 0 ∷ 1 ∷ []); host_port = "10.0.0.1:50042" }

abbrev given : Response
given = tftp_boot home "snp.efi" (base_response board home 67)

abbrev fresh : ProxyState
fresh = record { warned = []; warnings = 0 }

pc_text : handle_packet false home 67 pc fresh ≡ (some given, fresh)
unfolding handle_packet is_boot_dhcp validate_dhcp scan_arches guid_ok offer_dhcp index to_lower
    contains
pc_text = refl
