-- ===== src/Provider/Start/Laws.antt =====
-- A Raspberry Pi that the DHCP proxy answers finds its files.
use omni_infra_provider_bare.Base.{
  All, Bool, Bytes, Lacks, List, Option, String, any, arith, eq_iff, refl, some, str_eq, true, ℕ,
  ◌<>◌, ◌≡◌,
}
use omni_infra_provider_bare.Provider.Start.{RunOptions, Started, Surroundings, run, script_of}
use omni_infra_provider_bare.Provider.Laws.{required_served}
use omni_infra_provider_bare.Provider.Firmware.{Entry, required_files}
use omni_infra_provider_bare.Tls.{TlsConfig}
use omni_infra_provider_bare.Tftp.{deliver, handle_read}
use omni_infra_provider_bare.Tftp.Boards.{IsBoardDirectory, strip_board_directory_iff}
use omni_infra_provider_bare.Dhcp.Packet.{Packet, rpi, validate_dhcp}
use omni_infra_provider_bare.Dhcp.Offer.{Response, ServerIp}
use omni_infra_provider_bare.Dhcp.Handle.{ProxyState, handle_packet}
use omni_infra_provider_bare.Effects.{ok}
use omni_infra_provider_bare.Provider.Start.NoBoard.{lookup-HasNoBoard, patch_binaries-HasNoBoard}
use omni_infra_provider_bare.Provider.Start.Chain.{run-ok, share-ok}

module _ (s : Surroundings) (o : RunOptions) where
  -- The answer to a Raspberry Pi means that the proxy serves them.
  answered-serve :
      (serve : Bool) (ip : ServerIp) (port : ℕ) (m : Packet) (p p' : ProxyState) (r : Response)
      → validate_dhcp m ≡ some rpi
      → handle_packet serve ip port m p ≡ (some r, p')
      → serve ≡ true
  unfolding handle_packet
  answered-serve serve ip port m p p' r fw h = ground (arith, fw, h)

  -- From the start to the board: once Run has started the components, a Raspberry Pi that the DHCP
  -- proxy answers gets every file that it needs, under any board directory: the TFTP server answers a
  -- request of it as sending the contents ends that the firmware's directory had at the start. That no
  -- name in that directory has a slash is what a directory is.
  pub answered_board_served :
      (config config' : Option TlsConfig) (st : Started) (entries : List Entry)
      (send : Bytes → Option String) (ip : ServerIp) (port : ℕ) (m : Packet) (p p' : ProxyState)
      (r : Response) (d n : String)
      → run s o config ≡ (ok st, config')
      → s.firmware_dir.entries ≡ ok entries
      → All (λ (e : Entry). Lacks b'/' e.name) entries
      → validate_dhcp m ≡ some rpi
      → handle_packet st.serve_raspberry_pi ip port m p ≡ (some r, p')
      → IsBoardDirectory d
      → any (str_eq n) required_files ≡ true
      → (c : Bytes) × (s.firmware_dir.read_file n ≡ ok c)
        × (handle_read send st.files (d <> "/" <> n) ≡ deliver send c)
  answered_board_served config config' st entries send ip port m p p' r d n started listing names fw
        answered board required =
      let (mode, address, certs, shared) = run-ok s o config config' st started in
      let (hash, ipxe, patched, served, flag) = share-ok s o mode address certs st shared in
      let serving = answered-serve st.serve_raspberry_pi ip port m p p' r fw answered in
      let stripped = (strip_board_directory_iff (d <> "/" <> n) n).1 (d, board, refl) in
      required_served s.firmware_dir o.provider ipxe st.files entries send d n served
        (λ e. absurd (ground (arith, serving, flag, eq_iff o.provider.rpi_firmware_path "", e)))
        listing names board required
        (lookup-HasNoBoard (d <> "/" <> n) n ipxe stripped
          (patch_binaries-HasNoBoard s.binaries (script_of s o address) hash ipxe patched))
