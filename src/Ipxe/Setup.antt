-- ===== src/Ipxe/Setup.antt =====
-- internal/provider/ipxe/handler.go: what is prepared before the first request, the kernel arguments of
-- NewHandler and the check of the local boot assets. Files and networks are parameters.
mod Tests
use omni_infra_provider_bare.Base.{
  All, Bool, List, String, [], arith, if◌then◌else◌, inl, inr, not, refl, true, ℕ, ◌++◌, ◌<>◌, ◌==◌,
  ◌↔◌, ◌∙◌, ◌∷◌, ◌≡◌, ◌≢◌, ◌⊎◌,
}
use omni_infra_provider_bare.Effects.{Done, Result, Result-cases, err, ok}
use omni_infra_provider_bare.Ipxe.{BuildArch, amd64, arch_name, arm64}

-- type HandlerOptions, the fields that the kernel arguments are made of.
pub record HandlerOptions : Type 0 where
  pub api_advertise_address : String
  pub api_port : ℕ
  pub tls_enabled : Bool
  pub tls_api_port : ℕ
  pub agent_test_mode : Bool
  pub agent_skip_verify : Bool

-- net.JoinHostPort, the names of the kernel parameters, the path of the configuration, and the
-- compressed configuration.
pub record Names : Type 0 where
  pub join_host_port : String → ℕ → String
  pub kernel_param_config : String
  pub kernel_param_config_inline : String
  pub provider_address_arg : String
  pub test_mode_arg : String
  pub tls_skip_verify_arg : String
  pub config_url_path : String
  pub inline_config : Result String String

abbrev pub assign : String → String → String
assign name value = name <> "=" <> value

module _ (names : Names) (o : HandlerOptions) where
  unfoldable pub config_arg : String
  config_arg = assign names.kernel_param_config (
      "http://"
      <> names.join_host_port o.api_advertise_address o.api_port
      <> "/"
      <> names.config_url_path
      <> "?u=${uuid}")

  unfoldable pub provider_address : String
  provider_address =
      if o.tls_enabled
      then "https://" <> names.join_host_port o.api_advertise_address o.tls_api_port
      else names.join_host_port o.api_advertise_address o.api_port

  unfoldable pub default_args : Result String (List String)
  unfolding config_arg
  default_args = if not o.tls_enabled then ok (config_arg ∷ []) else elim names.inline_config [
    | err text ↦ err ("failed to build inline config: " <> text)
    | ok inline ↦ ok (config_arg ∷ assign names.kernel_param_config_inline inline ∷ [])
  ]

  unfoldable pub agent_extra_args : List String
  unfolding provider_address
  agent_extra_args =
      (assign names.provider_address_arg provider_address ∷ [])
      ++ (if o.agent_test_mode then assign names.test_mode_arg "1" ∷ [] else [])
      ++ (if o.agent_skip_verify then assign names.tls_skip_verify_arg "1" ∷ [] else [])

  -- The two lists of arguments that the handler keeps: those of every image, and those of the agent's.
  unfoldable pub kernel_args : Result String (List String × List String)
  unfolding default_args agent_extra_args
  kernel_args = elim default_args [
    | err text ↦ err text
    | ok args ↦ ok (args, args ++ agent_extra_args)
  ]

-- What os.Stat says of a boot asset.
pub record AssetInfo : Type 0 where
  pub is_regular : Bool
  pub size : ℕ

abbrev pub Assets : Type 0
Assets = String → Result String AssetInfo

unfoldable pub validate_boot_asset_file : Assets → String → Result String Done
validate_boot_asset_file stat name = elim (stat name) [
  | err text ↦ err text
  | ok info ↦
      if not info.is_regular
      then err (name <> " is not a regular file")
      else if info.size == 0
      then err (name <> " is empty")
      else ok tt
]

-- bootAssetNames
abbrev pub boot_asset_names : BuildArch → List String
boot_asset_names arch =
    ("kernel-" <> arch_name arch)
    ∷ ("initramfs-metal-" <> arch_name arch <> ".xz")
    ∷ ("cmdline-metal-" <> arch_name arch)
    ∷ []

-- The inner loop: the problems of an architecture's files.
unfoldable pub problems_of : Assets → List String → List String
unfolding validate_boot_asset_file
problems_of stat [] = []
problems_of stat (name ∷ names) =
    let others = problems_of stat names in
    elim (validate_boot_asset_file stat name) [ ok _ ↦ others | err text ↦ text ∷ others ]

-- From the problems of the two architectures; the error lists all of them.
abbrev judge : (on_amd64 on_arm64 : List String) → Result (List String) Done
judge [] on_arm64 = ok tt
judge (p ∷ ps) [] = ok tt
judge (p ∷ ps) (q ∷ qs) = err (p ∷ ps ++ (q ∷ qs))

unfoldable pub validate_boot_assets : Assets → Result (List String) Done
unfolding problems_of
validate_boot_assets stat =
    judge (problems_of stat (boot_asset_names amd64)) (problems_of stat (boot_asset_names arm64))

-- A file that is there, regular and not empty.
unfoldable pub IsUsable : Assets → String → Type 0
IsUsable stat name =
    (info : AssetInfo) × (stat name ≡ ok info) × (info.is_regular ≡ true) × (info.size ≢ 0)

valid-IsUsable :
    (stat : Assets) (name : String)
    → validate_boot_asset_file stat name ≡ ok tt
    → IsUsable stat name
unfolding validate_boot_asset_file IsUsable
valid-IsUsable stat name h = elim (Result-cases (stat name)) [
  | inr (text, e) ↦ absurd (ground (arith, h, e))
  | inl (info, e) ↦ (info, e, ground (arith, h, e), ground (arith, h, e))
]

IsUsable-valid :
    (stat : Assets) (name : String)
    → IsUsable stat name
    → validate_boot_asset_file stat name ≡ ok tt
unfolding validate_boot_asset_file IsUsable
IsUsable-valid stat name (info, e, regular, full) = ground (arith, e, regular, full)

no_problems :
    (stat : Assets) (names : List String)
    → (problems_of stat names ≡ []) ↔ All (IsUsable stat) names
unfolding problems_of
no_problems stat [] = (λ _. tt, λ _. refl)
no_problems stat (name ∷ names) = elim (Result-cases (validate_boot_asset_file stat name)) [
  | inl (d, e) ↦ (
    λ h. (valid-IsUsable stat name (e ∙ refl), (no_problems stat names).0 (ground (arith, h, e))),
    λ h. rw (problems_of, e) ((no_problems stat names).1 h.1),
  )
  | inr (text, e) ↦ (
    λ h. absurd (ground (arith, h, e)),
    λ h. absurd (ground (arith, IsUsable-valid stat name h.0, e)),
  )
]

-- The boot assets are accepted exactly if the kernel, the initramfs and the command line of one of the
-- two architectures are all regular files that are not empty.
pub validate_boot_assets_iff :
    (stat : Assets)
    → (validate_boot_assets stat ≡ ok tt) ↔ (
        All (IsUsable stat) (boot_asset_names amd64) ⊎ All (IsUsable stat) (boot_asset_names arm64))
unfolding validate_boot_assets
validate_boot_assets_iff stat = (
  λ h.
      elim (judged (problems_of stat (boot_asset_names amd64))
        (problems_of stat (boot_asset_names arm64)) h) [
          | inl e ↦ inl ((no_problems stat (boot_asset_names amd64)).0 e)
          | inr e ↦ inr ((no_problems stat (boot_asset_names arm64)).0 e)
        ],
  λ h. elim h [
    | inl u ↦ rw (validate_boot_assets, (no_problems stat (boot_asset_names amd64)).1 u) refl
    | inr u ↦
        judge_second (problems_of stat (boot_asset_names amd64))
          (problems_of stat (boot_asset_names arm64))
          ((no_problems stat (boot_asset_names arm64)).1 u)
  ],
)
  where
    judged : (ps qs : List String) → judge ps qs ≡ ok tt → (ps ≡ []) ⊎ (qs ≡ [])
    judged [] qs h = inl refl
    judged (p ∷ ps) [] h = inr refl
    judged (p ∷ ps) (q ∷ qs) h = absurd (ground (arith, h))

    judge_second : (ps qs : List String) → qs ≡ [] → judge ps qs ≡ ok tt
    judge_second [] qs e = refl
    judge_second (p ∷ ps) qs e = rw e refl
