-- ===== src/Qemu/Bmc/Laws.antt =====
-- The BMCs that a failed start leaves.
use omni_infra_provider_bare.Base.{
  List, String, [], ap, append-nil, append_assoc, arith, inl, inr, map, refl, sym, ◌++◌, ◌∙◌, ◌∷◌,
  ◌≡◌,
}
use omni_infra_provider_bare.Effects.{Result, Result-cases, err, ok}
use omni_infra_provider_bare.VirtualBmc.{Options}
use omni_infra_provider_bare.Qemu.Bmc.{Node, StartFailure, bmc_options, start_all}

module _ {A : Type 0} (new : Options → Result String A) (vm_socket : String → String) where
  abbrev made : Node → Result String A
  made node = new (bmc_options vm_socket node)

  -- When serveBMCs fails to start a BMC, it closes all that it has started: the BMCs of the nodes before
  -- the one that it names, and no other, and its error is the error of that node's BMC.
  pub failed_start_closes :
      (nodes : List Node) (servers : List A) (f : StartFailure A)
      → start_all new vm_socket nodes servers ≡ err f
      → (before : List Node) × (node : Node) × (after : List Node) × (started : List A) × (nodes
          ≡ before ++ (node ∷ after))
        × (f.closed ≡ servers ++ started)
        × (map made before ≡ map ok started)
        × (made node ≡ err f.error)
        × (f.node ≡ node.name)
  unfolding start_all
  failed_start_closes [] servers f h = absurd (ground (arith, h))
  failed_start_closes (node ∷ rest) servers f h = elim (Result-cases (made node)) [
    | inr (text, e) ↦
        let same : f ≡ record { closed = servers; node = node.name; error = text } =
          ground (arith, h, e) in
        (
          [],
          node,
          rest,
          [],
          refl,
          ap (λ (x : StartFailure A). x.closed) same ∙ sym (append-nil servers),
          refl,
          e ∙ sym (ap (λ (x : StartFailure A). err x.error) same),
          ap (λ (x : StartFailure A). x.node) same,
        )
    | inl (server, e) ↦
        let (before, n, after, started, split, closed, sent, refused, named) =
          failed_start_closes rest (servers ++ (server ∷ [])) f (ground (arith, h, e)) in
        (
          node ∷ before,
          n,
          after,
          server ∷ started,
          ap (λ xs. node ∷ xs) split,
          closed ∙ append_assoc servers (server ∷ []) started,
          rw (e, sent) refl,
          refused,
          named,
        )
  ]

  -- When it succeeds, the servers are those of the nodes, in their order.
  pub all_started :
      (nodes : List Node) (servers running : List A)
      → start_all new vm_socket nodes servers ≡ ok running
      → (started : List A) × (running ≡ servers ++ started) × (map made nodes ≡ map ok started)
  unfolding start_all
  all_started [] servers running h = ([], ground (arith, h) ∙ sym (append-nil servers), refl)
  all_started (node ∷ rest) servers running h = elim (Result-cases (made node)) [
    | inr (text, e) ↦ absurd (ground (arith, h, e))
    | inl (server, e) ↦
        let (started, joined, same) =
          all_started rest (servers ++ (server ∷ [])) running (ground (arith, h, e)) in
        (server ∷ started, joined ∙ append_assoc servers (server ∷ []) started, rw (e, same) refl)
  ]
