-- ===== src/Qemu/Machines/Laws.antt =====
-- The addresses of the machines that are asked for, and the file that they boot.
use omni_infra_provider_bare.Base.{
  List, Option, Option-cases, String, [], ap, arith, false, inl, inr, map, none, refl, some, suc,
  sym, true, zero, ℕ, ◌++◌, ◌+◌, ◌∙◌, ◌∷◌, ◌≡◌,
}
use omni_infra_provider_bare.Base.Int.{ℤ}
use omni_infra_provider_bare.Effects.{Result-cases, ok}
use omni_infra_provider_bare.Dhcp.Offer.{Response, ServerIp, offer_dhcp}
use omni_infra_provider_bare.Dhcp.Packet.{Packet, arm_efi, x86_efi, x86_pc}
use omni_infra_provider_bare.Qemu.Machines.{
  ClusterRequest, Host, MachinesStep, NodeRequest, Options, Provisioner, boot_filename,
  cluster_request, destroy_loaded, destroy_machines, node_request, node_requests, state_removed,
}

-- The offsets of the machines' addresses: the gateway's is 1, and the i-th machine's is i + 2.
unfoldable pub offsets : (left i : ℕ) → List ℕ
offsets zero i = []
offsets (suc left) i = (i + 2) ∷ offsets left (i + 1)

-- The machines that are left to ask for get the addresses at these offsets.
node_requests-offsets :
    (host : Host) (o : Options) (nano_cpus : ℤ) (gateway : String) (left i : ℕ)
    (nodes : List NodeRequest)
    → node_requests host o nano_cpus gateway left i ≡ ok nodes
    → map (λ (n : NodeRequest). ok n.ip) nodes ≡ map host.nth_ip (offsets left i)
unfolding node_requests node_request offsets
node_requests-offsets host o nano_cpus gateway zero i nodes h =
    let none_left : nodes ≡ [] = ground (arith, h) in rw none_left refl
node_requests-offsets host o nano_cpus gateway (suc left) i nodes h =
    elim (Result-cases (host.nth_ip (i + 2))) [
      | inr (text, e) ↦ absurd (ground (arith, h, e))
      | inl (ip, e) ↦ elim (Result-cases (node_requests host o nano_cpus gateway left (i + 1))) [
        | inr (text, f) ↦ absurd (ground (arith, h, e, f))
        | inl (rest, f) ↦
            let asked : nodes ≡ node_request host o nano_cpus gateway ip (host.uuid i) ∷ rest =
              ground (arith, h, e, f) in
            rw (asked, e, sym (node_requests-offsets host o nano_cpus gateway left (i + 1) rest f))
              refl
      ]
    ]

-- As many machines are asked for as the options say, and at the addresses of the subnet that follow the
-- gateway's, the gateway's being the first.
pub cluster_request-offsets :
    (host : Host) (o : Options) (nano_cpus : ℤ) (asked_for : ClusterRequest)
    → cluster_request host o nano_cpus ≡ ok asked_for
    → (host.nth_ip 1 ≡ ok asked_for.gateway)
      × (map (λ (n : NodeRequest). ok n.ip) asked_for.nodes
          ≡ map host.nth_ip (offsets o.num_machines 0))
unfolding cluster_request
cluster_request-offsets host o nano_cpus asked_for h = elim (Result-cases (host.nth_ip 1)) [
  | inr (text, e) ↦ absurd (ground (arith, h, e))
  | inl (gateway, e) ↦
      elim (Result-cases (node_requests host o nano_cpus gateway o.num_machines 0)) [
        | inr (text, f) ↦ absurd (ground (arith, h, e, f))
        | inl (nodes, f) ↦
            let asked : asked_for ≡ record { gateway = gateway; nodes = nodes } =
              ground (arith, h, e, f) in
            (
              e ∙ sym (ap (λ (r : ClusterRequest). ok r.gateway) asked),
              ap (λ (r : ClusterRequest). map (λ (n : NodeRequest). ok n.ip) r.nodes) asked
                  ∙ node_requests-offsets host o nano_cpus gateway o.num_machines 0 nodes f,
            )
      ]
]

abbrev offered_file : Option Response → Option String
offered_file none = none
offered_file (some r) = some r.boot_file_name

-- The file that the machines boot without the ProxyDHCP is the one that it offers for their firmware.
pub boot_filename-offer_dhcp :
    (m : Packet) (ip : ServerIp) (port : ℕ) (goarch : String)
    → (offered_file (offer_dhcp m ip x86_pc port) ≡ some (boot_filename false goarch))
      × (offered_file (offer_dhcp m ip x86_efi port) ≡ some (boot_filename true "amd64"))
      × (offered_file (offer_dhcp m ip arm_efi port) ≡ some (boot_filename true "arm64"))
unfolding offer_dhcp boot_filename
boot_filename-offer_dhcp m ip port goarch = (refl, refl, refl)

-- Destroy removes the state of the machines last, whatever failed before.
pub state_removed_last :
    {Cluster : Type 0} (p : Provisioner Cluster)
    → (before : List (MachinesStep Cluster)) × ((destroy_machines p).0
        ≡ before ++ (state_removed ∷ []))
unfolding destroy_machines
state_removed_last p = elim (Option-cases p.factory) [
  | inr (text, e) ↦ ([], rw e refl)
  | inl e ↦ ((destroy_loaded p).0, rw e refl)
]
