-- ===== src/Dhcp/Listen/Laws.antt =====
-- Which packets are answered by the listeners that the proxy starts.
use omni_infra_provider_bare.Base.{All, Bool, arith, false, none, ◌≡◌, ◌⊎◌}
use omni_infra_provider_bare.Dhcp.Packet.{Packet, discover, is_boot_dhcp, request}
use omni_infra_provider_bare.Dhcp.Offer.{ServerIp}
use omni_infra_provider_bare.Dhcp.Handle.{ProxyState, handle_packet}
use omni_infra_provider_bare.Dhcp.Listen.{ports}

-- Every answer goes to a packet of the type that its port is for: DHCPREQUEST on port 4011, and on port
-- 67, if the broadcast listener is not disabled, DHCPDISCOVER.
pub answers_by_port :
    (off serve : Bool) (ip : ServerIp) (m : Packet) (s : ProxyState)
    → All
        (λ port.
          ((handle_packet serve ip port m s).0 ≡ none)
          ⊎ ((port ≡ 4011) × (m.message_type ≡ request))
          ⊎ ((port ≡ 67) × (off ≡ false) × (m.message_type ≡ discover)))
        (ports off)
unfolding ports handle_packet is_boot_dhcp
answers_by_port off serve ip m s = ground arith
