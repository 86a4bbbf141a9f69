-- ===== src/Lib.antt =====
-- agentvm: a sandbox that runs a guest under QEMU microvm and stands between it and the host.
--
-- The parts and how they interact. QEMU sends the guest's Ethernet frames over a UNIX stream, each
-- behind its length (vm-frontend/src/vmnet_stream.rs). A user-space gateway reads each frame
-- (vm-frontend/src/vmnet_gateway.rs). It answers ARP and DHCP by itself (vm-frontend/src/l2_gateway.rs)
-- and DNS queries after the policy has admitted the name (vm-frontend/src/dns_proxy.rs). A TCP segment
-- goes to the core that holds the guest's sessions (vm-frontend/src/guest_tcp.rs), once the policy has
-- admitted the destination (vm-frontend/src/tcp_gateway.rs). A DNS query can be deferred: it is handed
-- to a worker through bounded queues and a table of what is pending
-- (vm-frontend/src/vmnet_service_io.rs), and the gateway builds the answer when it comes back. In the
-- other direction the host opens sessions to the guest (vm-frontend/src/host_ingress.rs). The policy is
-- a value with defaults (vm-frontend/src/network_policy.rs). Bytes on their way to a connection wait in
-- bounded buffers (vm-frontend/src/stream_buffer.rs). Payloads run in the guest under a service that speaks a frame
-- protocol (payload-protocol/src/lib.rs). The guest's files come from a composed file system, which
-- gives host files inodes and forgets them (composed-fs/src/namespace.rs). A supervisor holds the
-- status of the tasks of a launch and ends them at a shutdown (vm-frontend/src/supervisor.rs).
--
-- Which file models which part. A function, a handler or a method has one definition of its name;
-- a method takes the fields that it reads and returns those that it changes. Child modules hold the
-- proofs, named for what they prove, and a module Tests with concrete runs.
-- Common: bytes, big-endian words, slices and tests. A u8 is a natural number, with IsBytes where a
--   value must be below 256; a sum that wraps or saturates has its bound written out.
-- Fetch: the results of code that indexes byte strings. A result is a panic, absent (the None that
--   `?` returns early) or present; an index or a slice out of bounds is the panic.
-- Run: the results of code that can also panic: ok, an error of the code, or a panic. The end of the
--   fuel counts as a panic.
-- Network: GuestNetwork of vm-frontend/src/lib.rs.
-- L2: vm-frontend/src/l2_gateway.rs. L2.Wire builds the frames, L2.Address parses addresses
--   (from_guest_network), L2 has the handlers (handle_frame, handle_arp, handle_ipv4, handle_dhcp).
-- VmnetStream: vm-frontend/src/vmnet_stream.rs. A stream is the list of what its reads give.
-- Dns: vm-frontend/src/dns_proxy.rs, Dns.Domain its domain patterns. The messages of the hickory
--   crate and the upstream are parameters.
-- Tcp: vm-frontend/src/tcp_gateway.rs. A connector is a parameter that changes a state.
-- GuestTcp: vm-frontend/src/guest_tcp.rs. GuestTcp.Sockets is what it uses of the smoltcp crate, a
--   record of functions with laws from its documentation: the socket set, the interface, the parsers
--   of frames. GuestTcp has the core and its listeners, GuestTcp.Sessions what is done with a session,
--   GuestTcp.Syn the parse of a frame that opens one.
-- VmnetGateway: vm-frontend/src/vmnet_gateway.rs, the dispatch of a frame over L2, Dns, Tcp and
--   GuestTcp. VmnetGateway.Frames builds the answers, VmnetGateway.Sessions passes calls on to the core.
-- VmnetService: vm-frontend/src/vmnet_service_io.rs, VmnetService.Queues the two queues, the tokens and
--   the pending table, VmnetService.Owner the side that submits, VmnetService.Worker a worker's step.
-- HostIngress: vm-frontend/src/host_ingress.rs, HostIngress.Accept the accept loop and its queue,
--   HostIngress.Bridge the table of sessions, HostIngress.Session one session in one round. The calls
--   that the bridge makes of the gateway are a record, with what they do to the bytes of each session
--   as laws; HostIngress.Gateway fills it with those of VmnetGateway.
-- Policy: vm-frontend/src/network_policy.rs. The networks of the ipnet crate are a parameter.
-- StreamBuffer: vm-frontend/src/stream_buffer.rs. A connection is the list of what its reads and
--   writes will do, so that every order of partial, blocked and failed calls is a case.
-- Payload: payload-protocol/src/lib.rs. The JSON and UTF-8 conversions are parameters.
-- Namespace: composed-fs/src/namespace.rs. A HashMap is a function to options (Namespace.Maps);
--   fields of the file metadata that are only copied are one type parameter. Namespace.Agree is the
--   agreement of a key table with the nodes, used for host and shadow keys alike.
-- GuestPath: the path checks of composed-fs/src/lib.rs and the manifest checks of
--   composed-fs/src/manifest.rs; what serde reads from the JSON text is the record Manifest.
-- Supervisor: vm-frontend/src/supervisor.rs, Supervisor.Plan the tasks and the plan of
--   vm-frontend/src/lib.rs. A watch channel of tokio is a parameter, with the laws its documentation
--   states; a controller shares the channel of its task, so it is modelled by the task's position.
--
-- Bounds and fuel. The loop of FrameDecoder::push has the length of the buffer as fuel, and each
-- round drops a header. The loop over the DHCP options has the length of the payload plus one, and
-- each round moves on by one at least; running out would count as a panic, which is proved not to
-- happen. The loop of ipv4_checksum that folds the carries has three rounds, enough for a u32. The
-- loop of recv_available has the length of what the socket holds plus one, and each round takes at
-- least a byte. A token is a u64 that wraps; what is said of the tokens is for fewer than 2^64 - 2 of
-- them. The other loops recurse on their data: on what the stream gives, on the writes, on the tasks.
--
-- Not modelled: sockets, processes, files, threads and time; the third-party crates and the copy of
-- virtiofsd under third_party; the terminal interface and the command line. The parts with logic of
-- their own that stand outside: the relay between the guest's sessions and its connectors
-- (tcp_proxy.rs), the binding of the listeners of the host (host_ingress.rs), the runtime loop
-- (vmnet_runtime.rs), TLS interception (tls_mitm.rs), the Docker proxy, the payload client, the
-- control socket of the supervisor, the guest service, the parsing of a launch with its flags that
-- open the egress, and the file operations of composed-fs.
pub mod Common
pub mod Dns
pub mod Fetch
pub mod GuestPath
pub mod GuestTcp
pub mod HostIngress
pub mod L2
pub mod Namespace
pub mod Network
pub mod Payload
pub mod Policy
pub mod Run
pub mod StreamBuffer
pub mod Supervisor
pub mod Tcp
pub mod VmnetGateway
pub mod VmnetService
pub mod VmnetStream
