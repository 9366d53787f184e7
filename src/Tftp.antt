-- ===== src/Tftp.antt =====
-- internal/provider/tftp/tftp_server.go: which file a request reads (handleRead, stripBoardDirectory).
-- The transfer is the TFTP library's.
pub mod Paths
pub mod Boards
pub mod Laws
mod Tests
use Prim.Native.Char.{code}
use mathlib.Core.List.{reverse, tail}
use omni_infra_provider_bare.Base.{
  Bool, Bytes, List, Option, String, [], if◌then◌else◌, join, leb, none, replicate, some, split_on,
  str_eq, ℕ, ◌&&◌, ◌==◌, ◌||◌, ◌∷◌,
}
use omni_infra_provider_bare.Base.Dict.{lookup}

-- path.Clean of a path that begins with a slash, one part after the other: `kept` are the parts
-- so far, the last first. An empty part or "." changes nothing, and ".." takes the last part away.
unfoldable pub step : String → List String → List String
step part kept =
    if str_eq part "" || str_eq part "."
    then kept
    else if str_eq part ".."
    then tail kept
    else part ∷ kept

unfoldable pub walk : List String → List String → List String
unfolding step
walk [] kept = kept
walk (part ∷ parts) kept = walk parts (step part kept)

-- `strings.TrimPrefix(path.Clean("/"+filename), "/")`
unfoldable pub request_name : String → String
unfolding walk
request_name filename = join (reverse (walk (split_on b'/' filename) [])) "/"

abbrev pub is_hex : ℕ → Bool
is_hex c = (leb b'0' c && leb c b'9') || (leb b'a' c && leb c b'f') || (leb b'A' c && leb c b'F')

abbrev is_char : ℕ → ℕ → Bool
is_char d c = c == d

-- The two alternatives of boardDirectory, as the classes of their characters: eight hex digits, or
-- six pairs of them with a dash between.
abbrev pub serial : List (ℕ → Bool)
serial = replicate 8 is_hex

abbrev pub mac : List (ℕ → Bool)
mac =
    let dash = is_char b'-' in
    is_hex ∷ is_hex ∷ dash ∷ is_hex ∷ is_hex ∷ dash ∷ is_hex ∷ is_hex ∷ dash ∷ is_hex ∷ is_hex
    ∷ dash ∷ is_hex ∷ is_hex ∷ dash ∷ is_hex ∷ is_hex ∷ []

-- What is left of a text that begins with a character of each class.
unfoldable pub skip : List (ℕ → Bool) → String → Option String
skip [] s = some s
skip (p ∷ ps) String.[] = none
skip (p ∷ ps) (String.◌∷◌ c s) = let rest = skip ps s in if p (code c) then rest else none

unfoldable pub skip_directory : List (ℕ → Bool) → String → Option String
unfolding skip
skip_directory ps name = elim (skip ps name) [
  | none ↦ none
  | some rest ↦ skip (is_char b'/' ∷ []) rest
]

-- The regular expression's first alternative is tried first; `none` if there is no such prefix.
unfoldable pub strip_board_directory : String → Option String
unfolding skip_directory
strip_board_directory name = elim (skip_directory serial name) [
  | some rest ↦ some rest
  | none ↦ skip_directory mac name
]

-- How a request ends: the file is sent, sending it fails, or there is no such file.
pub data Reply : Type 0 where
  sent : Bytes → Reply
  send_failed : String → Reply
  not_found : String → Reply

-- The file of a name, or of the name without a board's directory.
unfoldable pub find_file : List (String × Bytes) → String → Option Bytes
unfolding strip_board_directory
find_file files name = elim (lookup name files) [
  | some contents ↦ some contents
  | none ↦ elim (strip_board_directory name) [ some stripped ↦ lookup stripped files | none ↦ none ]
]

-- `send` is ReadFrom on the connection: the error that it ends with, if any.
abbrev pub deliver : (Bytes → Option String) → Bytes → Reply
deliver send contents = elim (send contents) [ none ↦ sent contents | some text ↦ send_failed text ]

unfoldable pub handle_read : (Bytes → Option String) → List (String × Bytes) → String → Reply
unfolding request_name find_file
handle_read send files filename = elim (find_file files (request_name filename)) [
  | none ↦ not_found filename
  | some contents ↦ deliver send contents
]
