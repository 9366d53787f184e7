-- ===== src/Ipxe/Embedded/Laws.antt =====
-- The address that the init script chains to.
use Prim.Native.String.{count}
use text.Mathlib.TextLemmas.{length-append, append_assoc as concat_assoc}
use omni_infra_provider_bare.Base.{
  Bool-cases, String, arith, inl, inr, ◌↔◌, false, if◌then◌else◌, true, ◌<>◌, ◌≡◌, ◌≢◌, ap, lacks,
  ◌+◌, refl, ◌∙◌,
}
use omni_infra_provider_bare.Ipxe.Embedded.{
  after_path, before_endpoint, build_init_script, script_path,
}

-- net.JoinHostPort: a host with a colon, as an IPv6 address has, stands in brackets.
abbrev pub JoinsHostPort : (String → String → String) → Type 0
JoinsHostPort join =
    (host port : String)
    → join host port
      ≡ (if lacks b':' host then host <> (":" <> port) else "[" <> (host <> ("]:" <> port)))

-- The script that chains to an address.
abbrev pub chaining : String → String
chaining address = before_endpoint <> (address <> ("/" <> (script_path <> after_path)))

count-brackets :
    (a host port b : String)
    → count (a <> (("[" <> (host <> ("]:" <> port))) <> b))
      ≡ count (a <> (host <> (":" <> (port <> b)))) + 2
count-brackets a host port b = simp length-append (omega arith)

module _ (join : String → String → String) (joins : JoinsHostPort join)
    (endpoint port : String) where
  build_init_script-JoinsHostPort :
      lacks b':' endpoint ≡ true → build_init_script endpoint port ≡ chaining (join endpoint port)
  unfolding build_init_script
  build_init_script-JoinsHostPort plain = rw (joins endpoint port, plain) (simp concat_assoc)

  ipv6_unbracketed :
      lacks b':' endpoint ≡ false → build_init_script endpoint port ≢ chaining (join endpoint port)
  unfolding build_init_script
  ipv6_unbracketed colon same =
      let bracketed : join endpoint port ≡ "[" <> (endpoint <> ("]:" <> port)) =
        joins endpoint port ∙ rw colon refl in
      omega (
        arith,
        ap count (same ∙ ap chaining bracketed),
        count-brackets before_endpoint endpoint port ("/" <> (script_path <> after_path)),
      )

  -- The init script chains to the address that net.JoinHostPort makes of the provider's address and
  -- port, which the other scripts and the kernel arguments have, exactly if the provider's address has
  -- no colon: for an IPv6 address it lacks the brackets.
  pub chaining_iff :
      (build_init_script endpoint port ≡ chaining (join endpoint port))
      ↔ (lacks b':' endpoint ≡ true)
  chaining_iff = (
    λ same. elim (Bool-cases (lacks b':' endpoint)) [
      | inl plain ↦ plain
      | inr colon ↦ absurd (ipv6_unbracketed colon same)
    ],
    build_init_script-JoinsHostPort,
  )
