-- ===== src/MachineConfig/Tests.antt =====
-- Documents that stand in for the provider's.
use omni_infra_provider_bare.Base.{All, List, String, [], arith, eq_iff, some, ◌↔◌, ◌∷◌, ◌≡◌, ◌≢◌}
use omni_infra_provider_bare.MachineConfig.{Document, Kinds, parse_additional_documents}
use omni_infra_provider_bare.MachineConfig.Laws.{IsAllowed, parse_additional_documents_iff}
use omni_infra_provider_bare.Effects.{Result, ok}

abbrev kinds : Kinds
kinds = record {
  v1alpha1_version = "v1alpha1";
  siderolink_kind = "SideroLinkConfig";
  event_sink_kind = "EventSinkConfig";
  kmsg_log_kind = "KmsgLogConfig";
  trusted_roots_config = "TrustedRootsConfig";
}

differ : kinds.kmsg_log_kind ≢ kinds.trusted_roots_config
differ e = absurd (ground (arith, eq_iff "KmsgLogConfig" "TrustedRootsConfig", e))

abbrev docs : List Document
docs =
    record { kind = "TrustedRootsConfig"; meta_name = some "mine"; text = "" }
    ∷ record { kind = "KmsgLogConfig"; meta_name = some "remote"; text = "" }
    ∷ []

abbrev loaded : Result String (List Document)
loaded = ok docs

parse_additional_documents_iff_example :
    (parse_additional_documents kinds loaded ≡ ok docs)
    ↔ ((loaded ≡ ok docs) × All (IsAllowed kinds) docs)
parse_additional_documents_iff_example = parse_additional_documents_iff kinds differ loaded docs
