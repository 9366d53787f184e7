-- ===== src/Controllers/BmcConfiguration/Password.antt =====
-- generateIPMIPassword of internal/provider/controllers/bmc_configuration.go. The random numbers are a
-- parameter.
mod Tests
use Prim.Native.Char.{Char, code}
use omni_infra_provider_bare.Base.{
  Bool, Option, String, [], all, arith, codes, inl, inr, leb, length, none, refl, some, suc, true,
  zero, ℕ, ◌&&◌, ◌<◌, ◌||◌, ◌∷◌, ◌≡◌,
}
use omni_infra_provider_bare.Effects.{Result, Result-cases, err, ok}

abbrev pub runes : String
runes = "abcdefghijklmnopqrstuvwxyzABCDEFGHIJKLMNOPQRSTUVWXYZ0123456789"

abbrev pub ipmi_password_length : ℕ
ipmi_password_length = 16

-- A slice's element; out of range, Go panics.
abbrev pub rune_at : String → ℕ → Option Char
rune_at String.[] i = none
rune_at (String.◌∷◌ c s) zero = some c
rune_at (String.◌∷◌ c s) (suc i) = rune_at s i

pub data PasswordError : Type 0 where
  no_random : String → PasswordError
  out_of_range : PasswordError

-- rand.Int of the number of runes, at each turn.
abbrev pub Draws : Type 0
Draws = ℕ → Result String ℕ

abbrev put_rune : Option Char → Result PasswordError String → Result PasswordError String
put_rune none rest = err out_of_range
put_rune (some c) (ok text) = ok (String.◌∷◌ c text)
put_rune (some c) (err e) = err e

-- The turns from `i` on, of which `left` are left.
unfoldable pub draw_runes : Draws → (left i : ℕ) → Result PasswordError String
draw_runes draw zero i = ok ""
draw_runes draw (suc left) i =
    let rest = draw_runes draw left (suc i) in
    elim (draw i) [ err text ↦ err (no_random text) | ok r ↦ put_rune (rune_at runes r) rest ]

unfoldable pub generate_ipmi_password : Draws → Result PasswordError String
unfolding draw_runes
generate_ipmi_password draw = draw_runes draw ipmi_password_length 0

abbrev pub is_alphanumeric : ℕ → Bool
is_alphanumeric c =
    (leb b'a' c && leb c b'z') || (leb b'A' c && leb c b'Z') || (leb b'0' c && leb c b'9')

-- What rand.Int documents: a number below the bound.
unfoldable pub IsBelow : Draws → ℕ → Type 0
IsBelow draw bound = (i r : ℕ) → draw i ≡ ok r → r < bound

found_rune :
    (s : String) (i : ℕ)
    → all is_alphanumeric (codes s) ≡ true
    → i < length (codes s)
    → (c : Char) × (rune_at s i ≡ some c) × (is_alphanumeric (code c) ≡ true)
found_rune String.[] i h bound = absurd (omega (arith, bound))
found_rune (String.◌∷◌ c s) zero h bound = (c, refl, ground arith)
found_rune (String.◌∷◌ c s) (suc i) h bound = found_rune s i (ground arith) (omega (arith, bound))

-- What a generation of that many runes ends with.
abbrev pub IsPassword : ℕ → Result PasswordError String → Type 0
IsPassword n (ok text) = (length (codes text) ≡ n) × (all is_alphanumeric (codes text) ≡ true)
IsPassword n (err out_of_range) = ⊥
IsPassword n (err (no_random text)) = Unit

put_rune-IsPassword :
    (n : ℕ) (c : Char) (rest : Result PasswordError String)
    → is_alphanumeric (code c) ≡ true
    → IsPassword n rest
    → IsPassword (suc n) (put_rune (some c) rest)
put_rune-IsPassword n c (ok text) h (len, alnum) = (omega (arith, len), ground (arith, h, alnum))
put_rune-IsPassword n c (err out_of_range) h rest = rest
put_rune-IsPassword n c (err (no_random text)) h rest = tt

draw_runes-IsPassword :
    (draw : Draws) (left i : ℕ) → IsBelow draw 62 → IsPassword left (draw_runes draw left i)
unfolding draw_runes IsBelow
draw_runes-IsPassword draw zero i below = (refl, refl)
draw_runes-IsPassword draw (suc left) i below = elim (Result-cases (draw i)) [
  | inr (text, e) ↦ rw (draw_runes, e) tt
  | inl (r, e) ↦
      let (c, at, alnum) = found_rune runes r refl (below i r e) in
      rw (draw_runes, e)
        (rw at (
          put_rune-IsPassword left c (draw_runes draw left (suc i)) alnum
            (draw_runes-IsPassword draw left (suc i) below)))
]

-- A generated password has sixteen characters, all of them letters or digits of ASCII, and no rune is
-- looked up out of range; it fails only with an error of the random numbers.
pub generate_ipmi_password-IsPassword :
    (draw : Draws) → IsBelow draw 62 → IsPassword ipmi_password_length (generate_ipmi_password draw)
unfolding generate_ipmi_password
generate_ipmi_password-IsPassword draw below =
    draw_runes-IsPassword draw ipmi_password_length 0 below
