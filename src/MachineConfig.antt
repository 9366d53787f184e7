-- ===== src/MachineConfig.antt =====
-- internal/provider/machineconfig/machineconfig.go: which documents a machine's configuration has. The
-- documents and their encoding are the Talos library's.
pub mod Laws
mod Tests
use omni_infra_provider_bare.Base.{
  Bool, Bytes, List, Option, String, [], if◌then◌else◌, none, some, str_eq, ◌++◌, ◌||◌, ◌∷◌,
}
use omni_infra_provider_bare.Effects.{Result, err, ok}

-- A document: its kind, and the name of one that has the type of its kind, which the code asserts for the
-- kernel log and the trusted roots.
pub record Document : Type 0 where
  pub kind : String
  pub meta_name : Option String
  pub text : String

-- The kinds that the code tells apart, by their names in the Talos library.
pub record Kinds : Type 0 where
  pub v1alpha1_version : String
  pub siderolink_kind : String
  pub event_sink_kind : String
  pub kmsg_log_kind : String
  pub trusted_roots_config : String

abbrev pub kmsg_log_name : String
kmsg_log_name = "siderolink-agent-kmsg-log"

abbrev pub infra_provider_ca_name : String
infra_provider_ca_name = "infra-provider-ca"

pub data DocumentError : Type 0 where
  forbidden_kind : String → DocumentError
  unexpected_type : String → DocumentError
  forbidden_name : (kind name : String) → DocumentError

-- `if !ok { … }` and the test of the name
abbrev check_name : String → String → Option String → List DocumentError
check_name kind reserved none = unexpected_type kind ∷ []
check_name kind reserved (some name) =
    if str_eq name reserved then forbidden_name kind reserved ∷ [] else []

module _ (kinds : Kinds) where
  -- The switch: the errors of one document.
  unfoldable pub check_document : Document → List DocumentError
  check_document d =
      if str_eq d.kind kinds.v1alpha1_version
        || str_eq d.kind kinds.siderolink_kind
        || str_eq d.kind kinds.event_sink_kind
      then forbidden_kind d.kind ∷ []
      else if str_eq d.kind kinds.kmsg_log_kind
      then check_name kinds.kmsg_log_kind kmsg_log_name d.meta_name
      else if str_eq d.kind kinds.trusted_roots_config
      then check_name kinds.trusted_roots_config infra_provider_ca_name d.meta_name
      else []

  unfoldable pub check_documents : List Document → List DocumentError
  unfolding check_document
  check_documents [] = []
  check_documents (d ∷ ds) = check_document d ++ check_documents ds

pub data BuildError : Type 0 where
  not_loaded : String → BuildError
  invalid_documents : List DocumentError → BuildError
  read_error : String → BuildError
  join_config_malformed : String → BuildError
  render_error : String → BuildError

abbrev judge : List DocumentError → List Document → Result BuildError (List Document)
judge [] docs = ok docs
judge (e ∷ es) docs = err (invalid_documents (e ∷ es))

-- parseAdditionalDocuments, of the file as the Talos library loads it.
unfoldable pub parse_additional_documents :
    Kinds → Result String (List Document) → Result BuildError (List Document)
unfolding check_documents
parse_additional_documents kinds (err text) = err (not_loaded text)
parse_additional_documents kinds (ok docs) = judge (check_documents kinds docs) docs

-- What Build reads: whether Omni defines provider join configs, the documents of the one, or the
-- connection parameters of an older Omni, with the library's rendering of them and of a container.
pub record JoinReads : Type 0 where
  pub defines_join_config : Result String Bool
  pub join_config : Result String String
  pub load_config : String → Result String (List Document)
  pub connection_params : Result String String
  pub render_join_config : String → List Document → Result String Bytes
  pub encode : List Document → Result String Bytes

abbrev and_then :
    {A B : Type 0} → Result BuildError A → (A → Result BuildError B) → Result BuildError B
and_then (ok a) k = k a
and_then (err e) k = err e

abbrev failing : {A : Type 0} → (String → BuildError) → Result String A → Result BuildError A
failing e (ok a) = ok a
failing e (err text) = err (e text)

module _ (kinds : Kinds) (r : JoinReads) where
  abbrev pub trusted_roots : String → Document
  trusted_roots ca = record {
    kind = kinds.trusted_roots_config;
    meta_name = some infra_provider_ca_name;
    text = ca;
  }

  -- The document of the provider's certificate authority, if there is one.
  abbrev pub ca_documents : Option String → List Document
  ca_documents none = []
  ca_documents (some ca) = if str_eq ca "" then [] else trusted_roots ca ∷ []

  unfoldable pub build_v2_machine_config : List Document → Result BuildError Bytes
  build_v2_machine_config extra = and_then (failing read_error r.join_config) λ text.
      and_then (failing join_config_malformed (r.load_config text))
        λ docs. failing render_error (r.encode (docs ++ extra))

  abbrev build_with : List Document → Result BuildError Bytes
  build_with extra = and_then (failing read_error r.defines_join_config) λ is_v2.
      if is_v2
      then build_v2_machine_config extra
      else and_then (failing read_error r.connection_params)
          λ params. failing render_error (r.render_join_config params extra)

  -- `ca` is the text of the authority, `path` of the extra documents' file, and `loaded` what it holds.
  unfoldable pub build :
      (ca : Option String) (path : String) → Result String (List Document) → Result BuildError Bytes
  unfolding parse_additional_documents build_v2_machine_config
  build ca path loaded =
      if str_eq path ""
      then build_with (ca_documents ca)
      else and_then (parse_additional_documents kinds loaded)
          λ docs. build_with (ca_documents ca ++ docs)
