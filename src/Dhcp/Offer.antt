-- ===== src/Dhcp/Offer.antt =====
-- internal/provider/dhcp/proxy.go: the response to a netbooting machine.
pub mod Laws
use omni_infra_provider_bare.Base.{
  Bytes, List, Option, String, [], codes, if◌then◌else◌, length, none, some, ℕ, ◌%◌, ◌<>◌, ◌==◌,
  ◌∷◌,
}
use omni_infra_provider_bare.Dhcp.Packet.{
  Firmware, MessageType, Packet, ack, arm_efi, arm_http, offer, port_4011, rpi, unsupported,
  x86_efi, x86_http, x86_ipxe, x86_pc,
}

-- The address of the provider, net.ParseIP of the advertised one: its text, and its four bytes if it is
-- an IPv4 address; the address with its port, net.JoinHostPort.
pub record ServerIp : Type 0 where
  pub text : String
  pub to4 : Option Bytes
  pub host_port : String

-- The sub-options of the vendor specific information, each a code and its bytes. Their marshaling is
-- the DHCP library's; the code ends them with the byte 255.
pub record VendorInformation : Type 0 where
  pub sub_options : List (ℕ × Bytes)
  pub end : Bytes

-- What the response carries besides what the library copies of the request, as option 97.
pub record Response : Type 0 where
  pub message_type : MessageType
  -- options 54, 60, 66, 67 and 43, and the `file` field of the header
  pub server_identifier : Option Bytes
  pub class_identifier : String
  pub tftp_server_name : Option String
  pub boot_file_option : Option String
  pub vendor_specific : Option VendorInformation
  pub boot_file_name : String
  -- the `siaddr` field of the header, before its marshaling
  pub server_address : String

abbrev pub reply_type : ℕ → MessageType
reply_type port = if port == port_4011 then ack else offer

abbrev class_or_default : Option String → String
class_or_default none = "PXEClient"
class_or_default (some c) = c

-- The response before the switch on the firmware.
abbrev pub base_response : Packet → ServerIp → ℕ → Response
base_response m ip port = record {
  message_type = reply_type port;
  server_identifier = ip.to4;
  class_identifier = class_or_default m.class_identifier;
  tftp_server_name = none;
  boot_file_option = none;
  vendor_specific = none;
  boot_file_name = "";
  server_address = ip.text;
}

-- const pxeEnd, and the other codes of the sub-options
abbrev pub pxe_end : ℕ
pxe_end = 255

abbrev pub pxe_discovery_control : ℕ
pxe_discovery_control = 6

abbrev pub pxe_boot_servers : ℕ
pxe_boot_servers = 8

abbrev pub pxe_boot_menu : ℕ
pxe_boot_menu = 9

abbrev pub pxe_menu_prompt : ℕ
pxe_menu_prompt = 10

-- bootFileDirectlyPXEOptions
unfoldable pub boot_file_directly : VendorInformation
boot_file_directly = record {
  sub_options = (pxe_discovery_control, 0x08 ∷ []) ∷ [];
  end = pxe_end ∷ [];
}

-- const raspberryPiBootMenuDescription
abbrev pub description : Bytes
description = codes "Raspberry Pi Boot"

-- `byte(len(description))`
abbrev byte : ℕ → ℕ
byte n = n % 256

-- raspberryPiBootPXEOptions, `none` for its error
unfoldable pub raspberry_pi_options : ServerIp → Option VendorInformation
raspberry_pi_options ip = elim ip.to4 [
  | none ↦ none
  | some ipv4 ↦ some (record {
    sub_options =
        (pxe_discovery_control, 0x03 ∷ [])
        ∷ (pxe_boot_servers, 0x00 ∷ 0x00 ∷ 0x01 ∷ ipv4)
        ∷ (pxe_boot_menu, 0x00 ∷ 0x00 ∷ byte (length description) ∷ description)
        ∷ (pxe_menu_prompt, 0x00 ∷ description)
        ∷ [];
    end = pxe_end ∷ [];
  })
]

-- The standard PXE cases: a file over TFTP.
abbrev pub tftp_boot : ServerIp → String → Response → Response
tftp_boot ip file r = record r {
  tftp_server_name = some ip.text;
  boot_file_name = file;
  boot_file_option = some file;
  vendor_specific = some boot_file_directly;
}

abbrev pub url_host : ServerIp → String
url_host ip = elim ip.to4 [ none ↦ "[" <> ip.text <> "]" | some _ ↦ ip.text ]

abbrev pub boot_url : String → Response → Response
boot_url url r = record r { boot_file_option = some url }

-- OfferDHCP; `none` is an error, and building the base of the response is taken to succeed.
unfoldable pub offer_dhcp : Packet → ServerIp → Firmware → ℕ → Option Response
unfolding boot_file_directly raspberry_pi_options
offer_dhcp m ip x86_pc port = some (tftp_boot ip "undionly.kpxe" (base_response m ip port))
offer_dhcp m ip x86_ipxe port =
    some (boot_url ("tftp://" <> url_host ip <> "/undionly.kpxe") (base_response m ip port))
offer_dhcp m ip x86_efi port = some (tftp_boot ip "snp.efi" (base_response m ip port))
offer_dhcp m ip arm_efi port = some (tftp_boot ip "snp-arm64.efi" (base_response m ip port))
offer_dhcp m ip x86_http port =
    some (boot_url ("http://" <> ip.host_port <> "/tftp/amd64/snp.efi") (base_response m ip port))
offer_dhcp m ip arm_http port =
    some (boot_url ("http://" <> ip.host_port <> "/tftp/arm64/snp.efi") (base_response m ip port))
offer_dhcp m ip rpi port = elim (raspberry_pi_options ip) [
  | none ↦ none
  | some options ↦
      let r = base_response m ip port in
      some (record r { tftp_server_name = some ip.text; vendor_specific = some options })
]
offer_dhcp m ip unsupported port = none
