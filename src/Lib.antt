-- ===== src/Lib.antt =====
-- A model of the Omni infra provider for bare metal machines: what it decides about a machine, and
-- what it does to it.
--
-- The program is a set of controllers around the resources of each machine. The power operation
-- controller powers a machine on or off, the reboot status controller reboots it when it runs in
-- the wrong mode, the wipe status controller wipes it over its agent, the BMC configuration
-- controller finds out how its BMC is reached, the machine status controller polls it, and the infra
-- machine status controller reports it to Omni. A machine that boots over the network is answered by
-- the DHCP proxy first and by the iPXE handler then; the handler and the controllers share the
-- functions that decide what the machine should boot. The provider's start checks the options, loads
-- the boot files, which the TFTP server and the HTTP server share, and makes the certificates of the
-- API.
--
-- Where each part is:
--   Base            numbers, lists, dictionaries, byte strings and texts; Base.Int has Go's int64
--   Resources       api/specs/specs.proto, and the fields of Omni's resources that are used
--   Machine         internal/provider/machine/machine.go: RequiredBootMode, RequiresWipe,
--                   IsInstalled, RequiresPowerOn, IsPowerOffActive
--   Effects         the calls of the BMC clients and the agent, and the monad of the handlers
--   Controllers     internal/provider/controllers: a module for each controller, with `transform`
--                   for the method of that name; WipeStatus.History is any sequence of its
--                   calls on one wipe status; Common is controllers.go, Removal the
--                   finalizerRemoval of reboot_status.go, and Manual joins the power operation
--                   controller and the reboot controller with the factory of clients; MachineStatus.Reconcile is
--                   Reconcile of machine_status.go, MachineStatus.Hook its run hook, and
--                   BmcConfiguration.Password generateIPMIPassword
--   Bmc             internal/provider/bmc: GetClient and the cache of Redfish probes; Bmc.Backends
--                   has the operations of the manual, IPMI and API clients and ParseBootMode,
--                   Bmc.Api is api/api.go, Bmc.Redfish is redfish/redfish.go, Bmc.Address is
--                   api/manager.go
--   Dhcp            internal/provider/dhcp/proxy.go: Packet is isBootDHCP and validateDHCP, Offer is
--                   OfferDHCP, Handle is handlePacket, Interface is determineInterface,
--                   Listen is Run and runServer
--   Ipxe            internal/provider/ipxe: boot.go, with the data and the boots of handler.go, and
--                   Ipxe.Decision its ServeHTTP and makeBootDecision;
--                   Ipxe.Patch is patchBytes and replaceCA of patch.go, Ipxe.Files patchBinaries,
--                   Ipxe.Setup the kernel arguments of NewHandler and ValidateBootAssets, and
--                   Ipxe.Factory is imagefactory/client.go; Ipxe.Embedded is the init script,
--                   getCAHash and compressInlineConfig
--   Tftp            internal/provider/tftp/tftp_server.go: handleRead; Tftp.Paths is about the names
--                   of requests, Tftp.Boards about the directories of Raspberry Pi boards
--   Provider        internal/provider/provider.go: validateOptions, bootFiles, parseLabels,
--                   determineAPIAdvertiseAddress, with ip/ip.go; Provider.Firmware is rpi/firmware.go,
--                   Provider.ClearState is clearState, Provider.Start is Run up to the
--                   components that it starts, with NewHandler of ipxe/handler.go,
--                   Provider.Components the rest of Run and runComponents
--   Agent           internal/provider/agent/client.go: the connected machines and their events
--   Tls             internal/provider/tls/tls.go: Tls.Laws is about the certificates that are
--                   presented, Tls.Start about what the API gets of them at its
--                   start, Tls.Authority about the authority that signs them
--   Server          internal/provider/server/server.go: filesHandler, the routes and multiHandler;
--                   Server.Run is Run and shutdownOnCancel as a step relation
--   MachineConfig   internal/provider/machineconfig/machineconfig.go: Build
--   VirtualBmc      internal/qemu/virtualbmc/virtualbmc.go: the sockets of New; VirtualBmc.Hal is
--                   hal.go
--   Qemu            internal/qemu: Qemu.Bmc is bmc.go with the start of the virtual BMCs, which
--                   VirtualBmc's New opens; Qemu.Machines is createNew, Run and Destroy of
--                   machines.go
--   Lifecycle       how the wipe, the reboot and the boot decision act together on a machine
--   Samples         data for the Tests modules, which apply the theorems at concrete machines
--
-- How code corresponds to definitions. A handler is a function on a world: the resource that it
-- writes, and the trace of the calls that it has made, the latest first. An environment answers a
-- call from the trace before it, so the answers may be any, and may change from call to call. An
-- error is a value, and a handler that stops keeps the world it has reached. A resource that is not
-- found is `none`, any other error of a read is `err`. A timestamp counts nanoseconds from Go's zero
-- time, and durations are int64 with their wrap-around: time.Since saturates, and the requeue
-- interval wraps. All loops are structural recursion on a list or on a count, but for the loop of
-- replaceCA, which runs on the length of the binary plus one; each turn moves on by the length of
-- the hash, so that is enough. The goroutines of runComponents and of the servers are
-- step relations: the run of a component may return at any time, and may stop for the context's sake
-- once that is canceled. A write of a machine status may fail, and then leaves the store as it was.
--
-- What is not modelled: the runtime that calls the controllers and stores what they write; the
-- libraries for IPMI, Redfish, DHCP, TFTP, gRPC, HTTP, JSON, cryptography and compression, and the
-- documents of Talos, whose calls are parameters; the construction of the runtime; the tunnel to the
-- agents; New of internal/qemu/machines.go, and serveBMCs once the BMCs are started; and logging. Tls
-- takes the clock's readings as arguments, and does not wrap a duration. In Provider a Go map is a
-- list, whose order decides only which of several collisions an error names.
pub mod Base
pub mod Resources
pub mod Machine
pub mod Effects
pub mod Controllers
pub mod Bmc
pub mod Dhcp
pub mod Ipxe
pub mod Tftp
pub mod Provider
pub mod Agent
pub mod Server
pub mod VirtualBmc
pub mod Qemu
pub mod Lifecycle
pub mod MachineConfig
pub mod Tls
pub mod Samples
