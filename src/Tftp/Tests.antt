-- ===== src/Tftp/Tests.antt =====
-- A request of a Raspberry Pi.
use omni_infra_provider_bare.Base.{
  Bytes, List, Option, String, [], join, none, refl, some, split_on, ◌↔◌, ◌∷◌, ◌≡◌,
}
use omni_infra_provider_bare.Base.Dict.{lookup}
use omni_infra_provider_bare.Tftp.{
  find_file, handle_read, request_name, sent, skip, skip_directory, step, strip_board_directory,
  walk,
}
use omni_infra_provider_bare.Tftp.Laws.{IsFileOf, sent_iff}

abbrev firmware : Bytes
firmware = 1 ∷ 2 ∷ []

abbrev files : List (String × Bytes)
files = ("start4.elf", firmware) ∷ []

abbrev sending : Bytes → Option String
sending contents = none

abbrev asked : String
asked = "/x/../1a2b3c4d/./start4.elf"

board_text : handle_read sending files asked ≡ sent firmware
unfolding handle_read find_file strip_board_directory skip_directory skip request_name walk step
    split_on join lookup
board_text = refl

kept_text : strip_board_directory "arm64/snp.efi" ≡ none
unfolding strip_board_directory skip_directory skip
kept_text = refl

mac_text : strip_board_directory "dc-a6-32-01-02-03/config.txt" ≡ some "config.txt"
unfolding strip_board_directory skip_directory skip
mac_text = refl

sent_iff_example :
    (handle_read sending files asked ≡ sent firmware)
    ↔ ((sending firmware ≡ none) × IsFileOf files (request_name asked) firmware)
sent_iff_example = sent_iff sending files asked firmware
