-- ===== src/Ipxe/Embedded/Tests.antt =====
-- A provider with an IPv6 address.
use omni_infra_provider_bare.Base.{String, if◌then◌else◌, lacks, refl, true, ◌<>◌, ◌↔◌, ◌≡◌}
use omni_infra_provider_bare.Ipxe.Embedded.{build_init_script}
use omni_infra_provider_bare.Ipxe.Embedded.Laws.{JoinsHostPort, chaining, chaining_iff}

abbrev join_host_port : String → String → String
join_host_port host port =
    if lacks b':' host then host <> (":" <> port) else "[" <> (host <> ("]:" <> port))

joins : JoinsHostPort join_host_port
joins host port = refl

abbrev address : String
address = "fd00::1"

chaining_iff_example :
    (build_init_script address "50042" ≡ chaining (join_host_port address "50042"))
    ↔ (lacks b':' address ≡ true)
chaining_iff_example = chaining_iff join_host_port joins address "50042"
