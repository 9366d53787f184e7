-- ===== src/VirtualBmc/Tests.antt =====
-- A BMC whose user cannot be seeded.
use omni_infra_provider_bare.Base.{[], none, refl, some, true, ◌∷◌, ◌≡◌}
use omni_infra_provider_bare.VirtualBmc.{
  Host, Options, close_lan, close_vm, listen_vm_socket, new_server, not_seeded, open_lan, open_vm,
  parse_ipv4,
}
use omni_infra_provider_bare.Effects.{err}

abbrev host : Host
host = record {
  parse_ip = λ s. some (127 ∷ 0 ∷ 0 ∷ 1 ∷ []);
  to4 = λ ip. some ip;
  library_max_users = 63;
  listen_udp = λ ip. none;
  has_udp_address = true;
  remove_stale = λ path. none;
  listen_unix = λ path. none;
  seed_admin = some "slot taken";
}

abbrev options : Options
options = record {
  bmc_ip = "127.0.0.1";
  vm_socket = "/run/vm.sock";
  power_api_url = "http://launcher";
  max_users = 10;
}

unseeded_text :
    new_server host options
    ≡ (open_lan ∷ open_vm ∷ close_lan ∷ close_vm ∷ [], err (not_seeded "slot taken"))
unfolding new_server parse_ipv4 listen_vm_socket
unseeded_text = refl
