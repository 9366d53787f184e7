-- ===== src/Bmc/Api.antt =====
-- internal/provider/bmc/api/api.go: what the API client makes of an answer. HTTP and JSON are parameters.
use omni_infra_provider_bare.Base.{
  Bool, Option, String, if◌then◌else◌, none, not, some, ℕ, ◌<>◌, ◌==◌,
}
use omni_infra_provider_bare.Bmc.Backends.{HttpMethod, get_method, post_method}
use omni_infra_provider_bare.Effects.{Done, Result, err, ok}

-- An answer: its status code, and what decoding its body gives.
pub record HttpAnswer : Type 0 where
  pub status_code : ℕ
  pub decoded : Result String Bool

-- The making of a request, which may fail, and the sending of it.
pub record Http : Type 0 where
  pub new_request : HttpMethod → String → Option String
  pub send : HttpMethod → String → Result String HttpAnswer

pub data ApiError : Type 0 where
  not_created not_made : (path text : String) → ApiError
  unexpected_status : ℕ → ApiError
  failed_with : String → ApiError

module _ (http : Http) (address : String) where
  abbrev endpoint : String → String
  endpoint path = "http://" <> address <> path

  unfoldable pub do_post : String → Result ApiError Done
  do_post path = elim (http.new_request post_method (endpoint path)) [
    | some text ↦ err (not_created path text)
    | none ↦ elim (http.send post_method (endpoint path)) [
      | err text ↦ err (not_made path text)
      | ok answer ↦
          if not (answer.status_code == 200)
          then err (unexpected_status answer.status_code)
          else ok tt
    ]
  ]

  -- The status code is not looked at.
  unfoldable pub is_powered_on : Result ApiError Bool
  is_powered_on = elim (http.new_request get_method (endpoint "/status")) [
    | some text ↦ err (failed_with text)
    | none ↦ elim (http.send get_method (endpoint "/status")) [
      | err text ↦ err (failed_with text)
      | ok answer ↦ elim answer.decoded [
        | err text ↦ err (failed_with text)
        | ok powered_on ↦ ok powered_on
      ]
    ]
  ]
