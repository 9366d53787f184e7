-- ===== src/Tftp/Boards.antt =====
-- The directory that a Raspberry Pi asks under.
use Prim.Native.Char.{code}
use text.Mathlib.TextEquality.{Char-path}
use text.Mathlib.TextLemmas.{nil-append, cons-append}
use omni_infra_provider_bare.Base.{
  ==_iff, Bool, Bool-cases, Lacks, List, Option-cases, String, [], all, ap, arith, false, inl, inr,
  none, not, refl, some, sym, true, ℕ, ◌&&◌, ◌<>◌, ◌==◌, ◌↔◌, ◌∙◌, ◌∷◌, ◌≡◌, ◌⊎◌,
}
use omni_infra_provider_bare.Tftp.Paths.{IsPlain}
use omni_infra_provider_bare.Tftp.{
  is_char, mac, serial, skip, skip_directory, strip_board_directory,
}

-- A text with as many characters as there are classes, each in its class.
unfoldable pub fits : List (ℕ → Bool) → String → Bool
fits [] String.[] = true
fits [] (String.◌∷◌ c s) = false
fits (p ∷ ps) String.[] = false
fits (p ∷ ps) (String.◌∷◌ c s) = p (code c) && fits ps s

-- Eight hex digits, or a MAC address with dashes.
unfoldable pub IsBoardDirectory : String → Type 0
unfolding fits
IsBoardDirectory d = (fits serial d ≡ true) ⊎ (fits mac d ≡ true)

skip_fitting :
    (ps : List (ℕ → Bool)) (d rest : String) → fits ps d ≡ true → skip ps (d <> rest) ≡ some rest
unfolding skip fits
skip_fitting [] String.[] rest h = ap some (nil-append rest)
skip_fitting [] (String.◌∷◌ c d) rest h = absurd (ground arith)
skip_fitting (p ∷ ps) String.[] rest h = absurd (ground arith)
skip_fitting (p ∷ ps) (String.◌∷◌ c d) rest h =
    rw (cons-append c d rest) ground (arith, skip_fitting ps d rest)

skipped :
    (ps : List (ℕ → Bool)) (s rest : String)
    → skip ps s ≡ some rest
    → (d : String) × (fits ps d ≡ true) × (s ≡ d <> rest)
unfolding skip fits
skipped [] s rest h = ("", refl, (ground arith) ∙ sym (nil-append rest))
skipped (p ∷ ps) String.[] rest h = absurd (ground arith)
skipped (p ∷ ps) (String.◌∷◌ c s) rest h =
    let (d, fit, e) = skipped ps s rest (ground arith) in
    (String.◌∷◌ c d, ground arith, ap (λ t. String.◌∷◌ c t) e ∙ sym (cons-append c d rest))

skip_directory_fitting :
    (ps : List (ℕ → Bool)) (d rest : String)
    → fits ps d ≡ true
    → skip_directory ps (d <> "/" <> rest) ≡ some rest
unfolding skip_directory fits
skip_directory_fitting ps d rest h =
    rw (skip_directory, skip_fitting ps d ("/" <> rest) h)
      (skip_fitting (is_char b'/' ∷ []) "/" rest refl)

slash_only : (d : String) → fits (is_char b'/' ∷ []) d ≡ true → d ≡ "/"
unfolding fits
slash_only String.[] h = absurd (ground arith)
slash_only (String.◌∷◌ c String.[]) h = ap (λ x. String.◌∷◌ x "") (Char-path c "/" (ground arith))
slash_only (String.◌∷◌ c (String.◌∷◌ c' d)) h = absurd (ground arith)

skip_directory_found :
    (ps : List (ℕ → Bool)) (name rest : String)
    → skip_directory ps name ≡ some rest
    → (d : String) × (fits ps d ≡ true) × (name ≡ d <> "/" <> rest)
unfolding skip_directory
skip_directory_found ps name rest h = elim (Option-cases (skip ps name)) [
  | inl e ↦ absurd (ground (arith, e, h))
  | inr (after, e) ↦
      let (d, fit, name_eq) = skipped ps name after e in
      let (slash, one, after_eq) = skipped (is_char b'/' ∷ []) after rest (ground (e, h, arith)) in
      (d, fit, name_eq ∙ ap (λ t. d <> t) (after_eq ∙ ap (λ t. t <> rest) (slash_only slash one)))
]

-- A MAC address has a dash where a serial number has its third digit.
mac_no-serial : (d s : String) → fits mac d ≡ true → skip serial (d <> s) ≡ none
unfolding fits skip
mac_no-serial String.[] s h = absurd (ground arith)
mac_no-serial (String.◌∷◌ a String.[]) s h = absurd (ground arith)
mac_no-serial (String.◌∷◌ a (String.◌∷◌ b String.[])) s h = absurd (ground arith)
mac_no-serial (String.◌∷◌ a (String.◌∷◌ b (String.◌∷◌ c d))) s h =
    rw
      (
        cons-append a (String.◌∷◌ b (String.◌∷◌ c d)) s,
        cons-append b (String.◌∷◌ c d) s,
        cons-append c d s,
      )
      (ground arith)

-- What a name is without its board directory: the name begins with one, and a slash.
pub strip_board_directory_iff :
    (name rest : String)
    → (strip_board_directory name ≡ some rest)
      ↔ ((d : String) × IsBoardDirectory d × (name ≡ d <> "/" <> rest))
unfolding strip_board_directory IsBoardDirectory
strip_board_directory_iff name rest = (found, given)
  where
    no_serial : (d : String) → fits mac d ≡ true → skip_directory serial (d <> "/" <> rest) ≡ none
    no_serial d fit = rw (skip_directory, mac_no-serial d ("/" <> rest) fit) refl

    found :
        strip_board_directory name ≡ some rest
        → (d : String) × IsBoardDirectory d × (name ≡ d <> "/" <> rest)
    found h = elim (Option-cases (skip_directory serial name)) [
      | inl e ↦
          let (d, fit, n) = skip_directory_found mac name rest (ground (e, h, arith)) in
          (d, inr fit, n)
      | inr (r, e) ↦
          let (d, fit, n) = skip_directory_found serial name rest (ground (e, h, arith)) in
          (d, inl fit, n)
    ]

    given :
        (d : String) × IsBoardDirectory d × (name ≡ d <> "/" <> rest)
        → strip_board_directory name ≡ some rest
    given (d, inl fit, n) =
        ap strip_board_directory n
        ∙ rw (strip_board_directory, skip_directory_fitting serial d rest fit) refl
    given (d, inr fit, n) =
        ap strip_board_directory n
        ∙ rw (strip_board_directory, no_serial d fit)
            (rw (skip_directory_fitting mac d rest fit) refl)

abbrev rejects_slash : (ℕ → Bool) → Bool
rejects_slash p = not (p b'/')

fits-Lacks :
    (ps : List (ℕ → Bool)) (d : String)
    → all rejects_slash ps ≡ true
    → fits ps d ≡ true
    → Lacks b'/' d
unfolding fits
fits-Lacks [] String.[] r h = refl
fits-Lacks [] (String.◌∷◌ c d) r h = absurd (ground arith)
fits-Lacks (p ∷ ps) String.[] r h = absurd (ground arith)
fits-Lacks (p ∷ ps) (String.◌∷◌ c d) r h =
    let smaller = fits-Lacks ps d (ground arith) in
    elim (Bool-cases (code c == b'/')) [
      | inl e ↦ absurd (ground (arith, ap p ((==_iff (code c) b'/').0 e)))
      | inr e ↦ ground arith
    ]

fits-IsPlain :
    (ps : List (ℕ → Bool)) (d : String)
    → all rejects_slash ps ≡ true
    → fits ps "" ≡ false
    → fits ps "." ≡ false
    → fits ps ".." ≡ false
    → fits ps d ≡ true
    → IsPlain d
fits-IsPlain ps d r e₀ e₁ e₂ h = (
  λ e. absurd (ground (arith, ap (fits ps) e)),
  λ e. absurd (ground (arith, ap (fits ps) e)),
  λ e. absurd (ground (arith, ap (fits ps) e)),
  fits-Lacks ps d r h,
)

-- A board directory is a plain part of a path.
pub IsBoardDirectory-IsPlain : (d : String) → IsBoardDirectory d → IsPlain d
unfolding IsBoardDirectory fits
IsBoardDirectory-IsPlain d (inl h) = fits-IsPlain serial d refl refl refl refl h
IsBoardDirectory-IsPlain d (inr h) = fits-IsPlain mac d refl refl refl refl h
