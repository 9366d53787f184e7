-- ===== src/Dhcp.antt =====
-- internal/provider/dhcp/proxy.go: the DHCP proxy that points netbooting machines at the provider.
pub mod Packet
pub mod Interface
pub mod Listen
pub mod Offer
pub mod Handle
mod Tests
