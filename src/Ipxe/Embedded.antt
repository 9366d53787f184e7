-- ===== src/Ipxe/Embedded.antt =====
-- internal/provider/ipxe: the init script (bootTemplate and buildInitScript of patch.go), the hash of a
-- custom authority (getCAHash), and compressInlineConfig of handler.go. The files, the cryptography and the
-- compression are parameters.
pub mod Laws
mod Tests
use omni_infra_provider_bare.Base.{
  Bytes, List, Option, String, [], if◌then◌else◌, none, not, some, str_eq, ◌<>◌,
}
use omni_infra_provider_bare.Effects.{Result, err, ok}

-- The text of the template before the endpoint.
abbrev pub before_endpoint : String
before_endpoint =
    "#!ipxe\n"
    <> "prompt --key 0x02 --timeout 2000 Press Ctrl-B for the iPXE command line... && shell ||\n"
    <> "\n\nifstat\n\n\nset attempts:int32 10\nset x:int32 0\n\n:retry_loop\n\n"
    <> "\tset idx:int32 0\n\n\t:loop\n\t\t\n\t\tisset ${net${idx}/mac} || goto exhausted\n\n"
    <> "\t\tifclose\n\t\tiflinkwait --timeout 5000 net${idx} || goto next_iface\n"
    <> "\t\tdhcp net${idx} || goto next_iface\n\t\tgoto boot\n\n\t:next_iface\n"
    <> "\t\tinc idx && goto loop\n\n\t:boot\n\t\t\n\t\troute\n\n\t\tchain --replace http://"

-- The text of the template after the path.
abbrev pub after_path : String
after_path =
    "?uuid=${uuid}&mac=${net${idx}/mac:hexhyp}&domain=${domain}&hostname=${hostname}"
    <> "&serial=${serial}&arch=${buildarch} || goto next_iface\n"
    <> "\n:exhausted\n\techo\n\techo Failed to iPXE boot successfully via all interfaces\n\n"
    <> "\tiseq ${x} ${attempts} && goto fail ||\n\n\techo Retrying...\n\techo\n\n\tinc x\n"
    <> "\tgoto retry_loop\n\n:fail\n\techo\n"
    <> "\techo Failed to get a valid response after ${attempts} attempts\n\techo\n\n"
    <> "\techo Rebooting in 5 seconds...\n\tsleep 5\n\treboot\n"

-- constants.IPXEURLPath and bootScriptName
abbrev pub script_path : String
script_path = "ipxe" <> "/" <> "boot.ipxe"

-- `port` is the text that the template prints of the port.
unfoldable pub build_init_script : (endpoint port : String) → String
build_init_script endpoint port =
    before_endpoint <> (endpoint <> (":" <> (port <> ("/" <> (script_path <> after_path)))))

-- os.ReadFile, pem.Decode of package encoding/pem with the type and the bytes of the block, and
-- sha256.Sum256.
pub record CaFiles : Type 0 where
  pub read_file : String → Result String Bytes
  pub pem_decode : Bytes → Option (String × Bytes)
  pub sum256 : Bytes → Bytes

pub data CaError : Type 0 where
  unreadable : String → CaError
  no_pem_block : CaError
  wrong_type : String → CaError

module _ (files : CaFiles) where
  abbrev pub hash_of : Option (String × Bytes) → Result CaError Bytes
  hash_of none = err no_pem_block
  hash_of (some (type, block)) =
      if not (str_eq type "CERTIFICATE") then err (wrong_type type) else ok (files.sum256 block)

  unfoldable pub get_ca_hash : String → Result CaError Bytes
  get_ca_hash name = elim (files.read_file name) [
    | err text ↦ err (unreadable text)
    | ok pem ↦ hash_of (files.pem_decode pem)
  ]

  -- The hash that patchBinaries starts with, which is empty without a file.
  unfoldable pub custom_ca_hash : String → Result CaError Bytes
  custom_ca_hash name = if not (str_eq name "") then get_ca_hash name else ok []

-- The zstd encoder: the errors of making it, of writing to it and of closing it, and what it has written
-- then; and base64.StdEncoding.
pub record Encoder : Type 0 where
  pub new_writer : Option String
  pub write : Bytes → Option String
  pub close : Option String
  pub compressed : Bytes → Bytes
  pub base64 : Bytes → String

unfoldable pub compress_inline_config : Encoder → Bytes → Result String String
compress_inline_config e config = elim e.new_writer [
  | some text ↦ err ("failed to create zstd encoder: " <> text)
  | none ↦ elim (e.write config) [
    | some text ↦ err ("failed to write zstd data: " <> text)
    | none ↦ elim e.close [
      | some text ↦ err ("failed to close zstd encoder: " <> text)
      | none ↦ ok (e.base64 (e.compressed config))
    ]
  ]
]
