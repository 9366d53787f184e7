-- ===== src/Tftp/Laws.antt =====
-- What a request is answered with.
use omni_infra_provider_bare.Base.{
  All, Bytes, List, Option, Option-cases, String, ap, arith, inl, inr, join, none, refl, some, ◌<>◌,
  ◌↔◌, ◌∙◌, ◌∷◌, ◌≡◌, ◌⊎◌,
}
use omni_infra_provider_bare.Base.Dict.{lookup}
use omni_infra_provider_bare.Tftp.{
  deliver, find_file, handle_read, request_name, sent, strip_board_directory,
}
use omni_infra_provider_bare.Tftp.Paths.{IsPlain, request_name-join}
use omni_infra_provider_bare.Tftp.Boards.{
  IsBoardDirectory, IsBoardDirectory-IsPlain, strip_board_directory_iff,
}

-- The contents that a name stands for: those of the file of that name, or if there is none, of the
-- file that the name gives after a board's directory.
unfoldable pub IsFileOf : List (String × Bytes) → String → Bytes → Type 0
IsFileOf files name contents =
    (lookup name files ≡ some contents)
    ⊎ ((lookup name files ≡ none)
        × ((d : String) × (n : String) × IsBoardDirectory d
            × (name ≡ d <> "/" <> n)
            × (lookup n files ≡ some contents)))

found-IsFileOf :
    (files : List (String × Bytes)) (name : String) (contents : Bytes)
    → find_file files name ≡ some contents
    → IsFileOf files name contents
unfolding find_file IsFileOf
found-IsFileOf files name contents h = elim (Option-cases (lookup name files)) [
  | inr (other, e) ↦ inl (e ∙ ground (arith, e, h))
  | inl e ↦ elim (Option-cases (strip_board_directory name)) [
    | inl unmarked ↦ absurd (ground (arith, e, unmarked, h))
    | inr (n, marked) ↦
        let (d, board, whole) = (strip_board_directory_iff name n).0 marked in
        inr (e, (d, n, board, whole, ground (arith, e, marked, h)))
  ]
]

IsFileOf-found :
    (files : List (String × Bytes)) (name : String) (contents : Bytes)
    → IsFileOf files name contents
    → find_file files name ≡ some contents
unfolding find_file IsFileOf
IsFileOf-found files name contents (inl e) = ground (arith, e)
IsFileOf-found files name contents (inr (e, (d, n, board, whole, file))) =
    let stripped = (strip_board_directory_iff name n).1 (d, board, whole) in
    rw (find_file, e) (rw stripped file)

-- A request is answered with a file exactly if sending it succeeds and the file is the one of the
-- request's clean name, or if there is none, the clean name is a board directory (eight hex digits
-- or a MAC address with dashes), a slash and the name of the file.
pub sent_iff :
    (send : Bytes → Option String) (files : List (String × Bytes)) (filename : String)
    (contents : Bytes)
    → (handle_read send files filename ≡ sent contents)
      ↔ ((send contents ≡ none) × IsFileOf files (request_name filename) contents)
unfolding handle_read
sent_iff send files filename contents = (sent_found, found_sent)
  where
    sent_found :
        handle_read send files filename ≡ sent contents
        → (send contents ≡ none) × IsFileOf files (request_name filename) contents
    sent_found h = elim (Option-cases (find_file files (request_name filename))) [
      | inl e ↦ absurd (ground (arith, e, h))
      | inr (c, e) ↦ (
        ground (arith, e, h),
        found-IsFileOf files (request_name filename) contents (ground (arith, e, h)),
      )
    ]

    found_sent :
        (send contents ≡ none) × IsFileOf files (request_name filename) contents
        → handle_read send files filename ≡ sent contents
    found_sent (s, is_file) =
        rw (handle_read, IsFileOf-found files (request_name filename) contents is_file)
          (rw (deliver, s) refl)

-- A file that is found is sent.
pub found-deliver :
    (send : Bytes → Option String) (files : List (String × Bytes)) (filename : String)
    (contents : Bytes)
    → find_file files (request_name filename) ≡ some contents
    → handle_read send files filename ≡ deliver send contents
unfolding handle_read
found-deliver send files filename contents h = rw (handle_read, h) refl

-- Every file of plain parts is served under every board directory: a request of the directory, a
-- slash and the file's path is answered as sending the file ends, as long as no file has the whole
-- path as its name.
pub board_served :
    (send : Bytes → Option String) (files : List (String × Bytes)) (d p : String) (ps : List String)
    (contents : Bytes)
    → IsBoardDirectory d
    → All IsPlain (p ∷ ps)
    → lookup (join (d ∷ p ∷ ps) "/") files ≡ none
    → lookup (join (p ∷ ps) "/") files ≡ some contents
    → handle_read send files (join (d ∷ p ∷ ps) "/") ≡ deliver send contents
unfolding IsFileOf join
board_served send files d p ps contents board plain absent present =
    found-deliver send files (join (d ∷ p ∷ ps) "/") contents (ap (find_file files) whole ∙ found)
  where
    whole : request_name (join (d ∷ p ∷ ps) "/") ≡ join (d ∷ p ∷ ps) "/"
    whole = request_name-join (d ∷ p ∷ ps) (IsBoardDirectory-IsPlain d board, plain)

    found : find_file files (join (d ∷ p ∷ ps) "/") ≡ some contents
    found =
        IsFileOf-found files (join (d ∷ p ∷ ps) "/") contents
          (inr (absent, (d, join (p ∷ ps) "/", board, refl, present)))
