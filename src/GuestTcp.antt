-- ===== src/GuestTcp.antt =====
-- vm-frontend/src/guest_tcp.rs: the TCP endpoint that the guest talks to. The sockets and the
-- interface are those of the smoltcp crate (`SmolTcp` in GuestTcp/Sockets.antt); the slots, the
-- device's queues and every decision are the repository's.
pub mod Sockets
pub mod Sessions
pub mod Tests
pub mod Syn
pub mod Receive
pub mod Reaped
pub mod Reached
pub mod Listeners
pub mod Invariant
pub mod Reap
pub mod Handles
use wrapper.Common.{
  ℕ, zero, suc, ◌+◌, ◌*◌, ◌≡◌, Bool, true, false, not, ◌&&◌, ◌||◌, Option, none, some, List, [],
  ◌∷◌, ◌++◌, map, Bytes, String, length, ◌==◌, if◌then◌else◌, ◌⊎◌, inl, inr,
}
use wrapper.Run.{Run, panic, err, ok, ◌>>=◌}
use wrapper.Fetch
use wrapper.Network.{GuestNetwork}
use wrapper.Policy.{Nets, VmnetPolicy}
use wrapper.L2.{Ipv4, Mac}
use wrapper.L2.Address
use wrapper.Tcp.{TcpDestination, TcpDecision, evaluate_tcp_destination}
use Sockets.{
  EtherType, ipv4, IpProtocol, tcp, TcpControl, syn, Parsers, Queue, State, is_listen, is_closed,
  Handle, SmolTcp,
}

abbrev pub default_gateway_mac : Mac
default_gateway_mac = (0x02, 0xfc, 0x12, 0x34, 0x56, 0x01)

abbrev pub default_tcp_buffer_bytes : ℕ
default_tcp_buffer_bytes = 64 * 1024

pub record QueuedEthernetDevice : Type 0 where
  pub mtu : ℕ
  pub rx : Queue
  pub tx : Queue

abbrev pub new_device : ℕ → QueuedEthernetDevice
new_device mtu = record { mtu = mtu; rx = []; tx = [] }

abbrev pub push_rx : QueuedEthernetDevice → Bytes → QueuedEthernetDevice
push_rx device frame = record device { rx = device.rx ++ frame ∷ [] }

pub record TcpListenerSlot : Type 0 where
  pub port : ℕ
  pub handle : Handle

pub record TcpConnectionSlot : Type 0 where
  pub guest_port : ℕ
  pub local_port : ℕ
  pub handle : Handle

pub record GuestTcpReap : Type 0 where
  pub listener_sessions : ℕ
  pub host_connections : ℕ

pub data GuestTcpCoreError : Type 0 where
  invalid_ipv4 : Bytes → GuestTcpCoreError

pub data GuestTcpConnectError (E : Type 0) : Type 0 where
  core_error : GuestTcpCoreError → GuestTcpConnectError E
  connect_error : E → GuestTcpConnectError E

-- `parse_ipv4`, whose `Ipv4Addr::from_str` is the parameter.
abbrev pub parse_ipv4 : (Bytes → Option Ipv4) → Bytes → GuestTcpCoreError ⊎ Ipv4
parse_ipv4 from_str value = elim (from_str value) [
  | some ip ↦ inr ip
  | none ↦ inl (invalid_ipv4 value)
]

-- `handles.contains(&handle)`.
unfoldable pub contains : List Handle → Handle → Bool
contains [] h = false
contains (k ∷ ks) h = k == h || contains ks h

-- `retain` of the slots whose handle is not among the given ones.
unfoldable pub retain {ℓ} : {A : Type ℓ} → (A → Handle) → List Handle → List A → List A
unfolding contains
retain handle_of gone [] = []
retain handle_of gone (slot ∷ slots) =
    let rest = retain handle_of gone slots in
    if contains gone (handle_of slot) then rest else slot ∷ rest

abbrev pub listener_handle : TcpListenerSlot → Handle
listener_handle slot = slot.handle

abbrev pub connection_handle : TcpConnectionSlot → Handle
connection_handle slot = slot.handle

module _ (smol : SmolTcp) where
  open smol use {
    Socket, SocketSet, Interface, Instant, Endpoint, ListenError, ConnectError, RecvError,
    SendError, no_sockets, add, get, put, remove, new_socket, listen_on, connect_to, state,
    local_endpoint, remote_endpoint, can_recv, recv, recv_buffer, send_slice, close, interface,
    poll,
  }

  pub record GuestTcpCore : Type 0 where
    pub iface : Interface
    pub sockets : SocketSet
    pub listeners : List TcpListenerSlot
    pub host_connections : List TcpConnectionSlot

  pub record GuestTcpSession : Type 0 where
    pub session_state : State
    pub local : Endpoint
    pub remote : Endpoint

  pub record GuestTcpSessionRef : Type 0 where
    pub handle : Handle
    pub session : GuestTcpSession

  -- `GuestTcpCore::new`.
  unfoldable pub new_core :
      (Bytes → Option Ipv4) → GuestNetwork → Mac → Instant → GuestTcpCoreError ⊎ GuestTcpCore
  new_core from_str network gateway_mac now = elim (parse_ipv4 from_str network.gateway_ip) [
    | inl e ↦ inl e
    | inr gateway_ip ↦ inr (record {
      iface = interface gateway_mac gateway_ip network.prefix_len now;
      sockets = no_sockets;
      listeners = [];
      host_connections = [];
    })
  ]

  unfoldable pub listen_tcp : ℕ → GuestTcpCore → Run ListenError (Handle × GuestTcpCore)
  listen_tcp port core = elim (listen_on port (new_socket default_tcp_buffer_bytes)) [
    | inl e ↦ err e
    | inr socket ↦
        let (handle, sockets) = add socket core.sockets in
        ok (
          handle,
          record core {
            sockets = sockets;
            listeners = core.listeners ++ record { port = port; handle = handle } ∷ [];
          },
        )
  ]

  -- `find` of a slot with the port whose socket listens; the lookup of a socket may panic.
  unfoldable pub find_listener : ℕ → SocketSet → List TcpListenerSlot → Option (Option Handle)
  find_listener port s [] = some none
  find_listener port s (slot ∷ slots) =
      let rest = find_listener port s slots in
      if slot.port == port
      then elim (get s slot.handle) [
        | none ↦ none
        | some socket ↦ if is_listen (state socket) then some (some slot.handle) else rest
      ]
      else rest

  unfoldable pub ensure_listener : ℕ → GuestTcpCore → Run ListenError (Handle × GuestTcpCore)
  unfolding listen_tcp find_listener
  ensure_listener port core = elim (find_listener port core.sockets core.listeners) [
    | none ↦ panic
    | some (some handle) ↦ ok (handle, core)
    | some none ↦ listen_tcp port core
  ]

  -- `GuestTcpCore::poll`, with the device after it.
  unfoldable pub poll_core :
      Instant → GuestTcpCore → QueuedEthernetDevice → GuestTcpCore × QueuedEthernetDevice
  poll_core now core device =
      let ((rx, tx), (iface, sockets)) = poll now device.rx device.tx core.iface core.sockets in
      (record core { iface = iface; sockets = sockets }, record device { rx = rx; tx = tx })

  unfoldable pub connect_to_guest :
      (Bytes → Option Ipv4)
      → GuestNetwork
      → ℕ
      → ℕ
      → Instant
      → GuestTcpCore
      → QueuedEthernetDevice
      → GuestTcpConnectError ConnectError ⊎ (Handle × (GuestTcpCore × QueuedEthernetDevice))
  unfolding poll_core
  connect_to_guest from_str network guest_port local_port now core device =
      elim (parse_ipv4 from_str network.guest_ip) [
        | inl e ↦ inl (core_error e)
        | inr guest_ip ↦
            elim (connect_to core.iface guest_ip guest_port local_port
              (new_socket default_tcp_buffer_bytes)) [
                | inl e ↦ inl (connect_error e)
                | inr (socket, iface) ↦
                    let (handle, sockets) = add socket core.sockets in
                    let slot : TcpConnectionSlot = record {
                      guest_port = guest_port;
                      local_port = local_port;
                      handle = handle;
                    } in
                    let core' = record core {
                      iface = iface;
                      sockets = sockets;
                      host_connections = core.host_connections ++ slot ∷ [];
                    } in
                    inr (handle, poll_core now core' device)
              ]
      ]
