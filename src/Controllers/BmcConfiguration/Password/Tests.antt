-- ===== src/Controllers/BmcConfiguration/Password/Tests.antt =====
-- A password of the first sixteen runes.
use omni_infra_provider_bare.Base.{arith, refl, ◌%◌, ◌≡◌}
use omni_infra_provider_bare.Effects.{ok}
use omni_infra_provider_bare.Controllers.BmcConfiguration.Password.{
  Draws, IsBelow, IsPassword, draw_runes, generate_ipmi_password, generate_ipmi_password-IsPassword,
  ipmi_password_length,
}

-- The numbers in turn, back to 0 after 61.
abbrev in_turn : Draws
in_turn i = ok (i % 62)

in_turn-IsBelow : IsBelow in_turn 62
unfolding IsBelow
in_turn-IsBelow i r e = ground (arith, e)

first_text : generate_ipmi_password in_turn ≡ ok "abcdefghijklmnop"
unfolding generate_ipmi_password draw_runes
first_text = refl

generate_ipmi_password-IsPassword_example :
    IsPassword ipmi_password_length (generate_ipmi_password in_turn)
generate_ipmi_password-IsPassword_example =
    generate_ipmi_password-IsPassword in_turn in_turn-IsBelow
