-- ===== src/Base/Words.antt =====
-- What the program uses of Go's package strings on texts: Fields, TrimSpace and Join.
use Prim.Native.Nat.{ℕ}
use Prim.Native.Char.{code}
use Prim.Native.String.{String}
use mathlib.Core.Path.{◌≡◌, refl}
use Prim.Native.String.{◌++◌ as ◌<>◌}
use mathlib.Core.Bool.{Bool, true, false, ◌&&◌, ◌||◌}
use mathlib.Core.List.{List, [], ◌∷◌}
use omni_infra_provider_bare.Base.Tests.{if◌then◌else◌, leb, ◌==◌}

-- unicode.IsSpace
abbrev pub is_space : ℕ → Bool
is_space c =
    (leb 9 c && leb c 13)
    || c == 32
    || c == 0x85
    || c == 0xa0
    || c == 0x1680
    || (leb 0x2000 c && leb c 0x200a)
    || c == 0x2028
    || c == 0x2029
    || c == 0x202f
    || c == 0x205f
    || c == 0x3000

abbrev is_empty : String → Bool
is_empty String.[] = true
is_empty (String.◌∷◌ _ _) = false

abbrev push : String → List String → List String
push String.[] ws = ws
push w ws = w ∷ ws

-- The field that a text starts with, and those after it.
abbrev split : String → String × List String
split String.[] = ("", [])
split (String.◌∷◌ c s) =
    let (w, ws) = split s in if is_space (code c) then ("", push w ws) else (String.◌∷◌ c w, ws)

unfoldable pub fields : String → List String
fields s = let (w, ws) = split s in push w ws

abbrev trim_left : String → String
trim_left String.[] = ""
trim_left (String.◌∷◌ c s) =
    let rest = trim_left s in if is_space (code c) then rest else String.◌∷◌ c s

abbrev trim_right : String → String
trim_right String.[] = ""
trim_right (String.◌∷◌ c s) =
    let rest = trim_right s in if is_space (code c) && is_empty rest then "" else String.◌∷◌ c rest

unfoldable pub trim_space : String → String
trim_space s = trim_right (trim_left s)

unfoldable pub join : List String → String → String
join [] sep = ""
join (x ∷ []) sep = x
join (x ∷ xs) sep = x <> sep <> join xs sep

fields_text : fields " a  bc " ≡ "a" ∷ "bc" ∷ []
unfolding fields
fields_text = refl

trim_space_text : trim_space " a b " ≡ "a b"
unfolding trim_space
trim_space_text = refl
