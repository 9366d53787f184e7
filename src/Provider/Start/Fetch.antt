-- ===== src/Provider/Start/Fetch.antt =====
-- A machine that the DHCP proxy answers finds the boot file that it is offered.
use omni_infra_provider_bare.Base.{
  Bool, Bool-cases, Bytes, Option, Option-cases, String, ap, arith, eq_iff, inl, inr, refl, some,
  str_eq, true, ℕ, ◌<>◌, ◌∙◌, ◌≡◌, ◌≢◌, ◌⊎◌,
}
use omni_infra_provider_bare.Base.Dict.{lookup}
use omni_infra_provider_bare.Effects.{ok}
use omni_infra_provider_bare.Tls.{TlsConfig}
use omni_infra_provider_bare.Tftp.{deliver, find_file, handle_read, request_name}
use omni_infra_provider_bare.Tftp.Laws.{found-deliver}
use omni_infra_provider_bare.Ipxe.Files.{Files}
use omni_infra_provider_bare.Ipxe.Files.Laws.{is_served, offered_is_served}
use omni_infra_provider_bare.Dhcp.Packet.{Firmware, Packet, rpi, validate_dhcp}
use omni_infra_provider_bare.Dhcp.Offer.{Response, ServerIp, offer_dhcp, url_host}
use omni_infra_provider_bare.Dhcp.Handle.{ProxyState, handle_packet}
use omni_infra_provider_bare.Server.{Mux, file, serve_path}
use omni_infra_provider_bare.Server.Laws.{ServesSubtrees, serve_path-lookup}
use omni_infra_provider_bare.Provider.Firmware.{Directory}
use omni_infra_provider_bare.Provider
use omni_infra_provider_bare.Provider.{boot_files}
use omni_infra_provider_bare.Provider.Laws.{boot_files-lookup}
use omni_infra_provider_bare.Provider.Start.{RunOptions, Started, Surroundings, run, script_of}
use omni_infra_provider_bare.Provider.Start.Chain.{run-ok, share-ok}

-- The file that is served under a name stays served beside the firmware's files.
boot_files-kept :
    (dir : Directory) (o : Provider.Options) (ipxe files : Files) (n : String) (c : Bytes)
    → boot_files dir o ipxe ≡ ok files
    → lookup n ipxe ≡ some c
    → lookup n files ≡ some c
unfolding boot_files
boot_files-kept dir o ipxe files n c h found = elim (Bool-cases (str_eq o.rpi_firmware_path "")) [
  | inl unset ↦ ground (arith, h, unset, found, ap (lookup n) (same unset))
  | inr set ↦
      let (loaded, l, apart, e) =
        boot_files-lookup dir o ipxe files n h
          (λ x. absurd (ground (arith, set, x, eq_iff o.rpi_firmware_path ""))) in
      e ∙ rw found refl
]
  where
    same : str_eq o.rpi_firmware_path "" ≡ true → files ≡ ipxe
    same unset = ground (arith, h, unset)

found_of :
    (n : String) (files : Files)
    → is_served n files ≡ true
    → (c : Bytes) × (lookup n files ≡ some c)
found_of n files h = elim (Option-cases (lookup n files)) [
  | inl e ↦ absurd (ground (arith, h, e))
  | inr found ↦ found
]

sent :
    (send : Bytes → Option String) (files : Files) (n : String) (c : Bytes)
    → request_name n ≡ n
    → lookup n files ≡ some c
    → handle_read send files n ≡ deliver send c
unfolding find_file
sent send files n c clean found =
    found-deliver send files n c (rw clean (rw (find_file, found) refl))

-- The response of the proxy is the one that it makes for the machine's firmware.
offered :
    (serve : Bool) (ip : ServerIp) (port : ℕ) (m : Packet) (p p' : ProxyState) (r : Response)
    (fw : Firmware)
    → validate_dhcp m ≡ some fw
    → handle_packet serve ip port m p ≡ (some r, p')
    → offer_dhcp m ip fw port ≡ some r
unfolding handle_packet
offered serve ip port m p p' r fw e h = ground (arith, e, h)

-- From the start to the boot file: once Run has started the components, a machine that the DHCP proxy
-- answers, other than a Raspberry Pi, gets the file that it is offered, which is named as it is over
-- TFTP, by its TFTP URL, or by its HTTP URL. A request of that name is answered by the TFTP server as
-- sending the file ends, and a request of its path below /tftp/ by the HTTP server with the file, where
-- http.ServeMux takes a clean path below /tftp/ to the handler of that pattern, and http.StripPrefix
-- leaves what is below it.
pub offered_is_fetched :
    (s : Surroundings) (o : RunOptions) (mux : Mux) (assets_dir : String)
    (config config' : Option TlsConfig) (st : Started) (send : Bytes → Option String)
    (ip : ServerIp) (port : ℕ) (m : Packet) (p p' : ProxyState) (r : Response) (fw : Firmware)
    → ServesSubtrees mux
    → run s o config ≡ (ok st, config')
    → validate_dhcp m ≡ some fw
    → fw ≢ rpi
    → handle_packet st.serve_raspberry_pi ip port m p ≡ (some r, p')
    → (name : String) × (c : Bytes) × ((r.boot_file_option ≡ some name)
        ⊎ (r.boot_file_option ≡ some ("tftp://" <> url_host ip <> "/" <> name))
        ⊎ (r.boot_file_option ≡ some ("http://" <> ip.host_port <> "/tftp/" <> name)))
      × (handle_read send st.files name ≡ deliver send c)
      × (serve_path mux assets_dir st.files ("/tftp/" <> name) ≡ file c)
offered_is_fetched s o mux assets_dir config config' st send ip port m p p' r fw tree started e
      other answered =
    let (mode, address, certs, shared) = run-ok s o config config' st started in
    let (hash, ipxe, patched, served, flag) = share-ok s o mode address certs st shared in
    let (name, there, clean, option, header) =
      offered_is_served s.binaries (script_of s o address) hash ipxe m ip fw port r patched
        (offered st.serve_raspberry_pi ip port m p p' r fw e answered) other in
    let (c, found) = found_of name ipxe there in
    let kept = boot_files-kept s.firmware_dir o.provider ipxe st.files name c served found in
    (
      name,
      c,
      option,
      sent send st.files name c clean kept,
      serve_path-lookup mux assets_dir st.files name c tree clean kept,
    )
