-- ===== src/GuestTcp/Sockets.antt =====
-- What vm-frontend/src/guest_tcp.rs uses of the smoltcp crate: TCP sockets, the set that owns them,
-- the interface that moves frames, and the parsers of frames.
use wrapper.Common.{
  ℕ, ◌≡◌, ◌≢◌, Bool, true, false, Option, none, some, List, ◌∷◌, ◌++◌, Bytes, String, is_some, ◌⊎◌,
  inr,
}
use wrapper.L2.{Ipv4, Mac}

pub data EtherType : Type 0 where
  arp ipv4 ipv6 : EtherType
  unknown_type : ℕ → EtherType

pub data IpProtocol : Type 0 where
  tcp udp : IpProtocol
  unknown_protocol : ℕ → IpProtocol

pub data TcpControl : Type 0 where
  no_control psh syn fin rst : TcpControl

-- `EthernetFrame`, of which `payload` is what follows the header.
pub record Ethernet : Type 0 where
  pub src_addr : Mac
  pub dst_addr : Mac
  pub ethertype : EtherType
  pub payload : Bytes

pub record Ip : Type 0 where
  pub src_addr : Ipv4
  pub dst_addr : Ipv4
  pub next_header : IpProtocol
  pub payload : Bytes

pub record Udp : Type 0 where
  pub src_port : ℕ
  pub dst_port : ℕ
  pub payload : Bytes

pub record TcpRepr : Type 0 where
  pub src_port : ℕ
  pub dst_port : ℕ
  pub control : TcpControl
  pub seq_number : ℕ
  pub ack_number : Option ℕ
  pub window_len : ℕ
  pub payload : Bytes

-- The parsers. `ethernet_frame`, `ip_packet` and `udp_packet` are the checked views; `ethernet_repr`, `ip_repr` and
-- `tcp_repr` are `new_checked` and then `parse`, of which the second checks the checksums too.
pub record Parsers : Type 0 where
  pub ethernet_frame : Bytes → Option Ethernet
  pub ip_packet : Bytes → Option Ip
  pub udp_packet : Bytes → Option Udp
  pub ethernet_repr : Bytes → Option Ethernet
  pub ethernet_len : ℕ
  pub ip_repr : Bytes → Option Ip
  pub ip_len : Ip → ℕ
  pub tcp_repr : Bytes → Ipv4 → Ipv4 → Option TcpRepr
  -- `emit` of a frame whose TCP segment has no options.
  pub emit_tcp : Mac → Mac → Ipv4 → Ipv4 → TcpRepr → Bytes
  pub show_ethertype : EtherType → String
  pub show_protocol : IpProtocol → String

-- A frame queue of `QueuedEthernetDevice`.
abbrev pub Queue : Type 0
Queue = List Bytes

pub data State : Type 0 where
  closed listen syn_sent syn_received established : State
  fin_wait1 fin_wait2 close_wait closing last_ack time_wait : State

abbrev pub is_listen : State → Bool
is_listen listen = true
is_listen _ = false

abbrev pub is_closed : State → Bool
is_closed closed = true
is_closed _ = false

-- A `SocketHandle`.
abbrev pub Handle : Type 0
Handle = ℕ

pub record SmolTcp : Type 1 where
  pub Socket : Type 0
  pub SocketSet : Type 0
  pub Interface : Type 0
  pub Instant : Type 0
  pub Endpoint : Type 0
  pub ListenError : Type 0
  pub ConnectError : Type 0
  pub RecvError : Type 0
  pub SendError : Type 0
  -- The set: `get` is `none` where it panics.
  pub no_sockets : SocketSet
  pub add : Socket → SocketSet → Handle × SocketSet
  pub get : SocketSet → Handle → Option Socket
  pub put : Handle → Socket → SocketSet → SocketSet
  pub remove : Handle → SocketSet → SocketSet
  -- A socket with two buffers of the size.
  pub new_socket : ℕ → Socket
  pub listen_on : ℕ → Socket → ListenError ⊎ Socket
  -- With the interface after it, whose context it takes mutably; an error is found before it is used.
  pub connect_to : Interface → Ipv4 → ℕ → ℕ → Socket → ConnectError ⊎ (Socket × Interface)
  pub state : Socket → State
  pub local_endpoint : Socket → Option Endpoint
  pub remote_endpoint : Socket → Option Endpoint
  pub can_recv : Socket → Bool
  -- `recv` of a closure that takes all the data it is shown.
  pub recv : Socket → RecvError ⊎ (Bytes × Socket)
  pub recv_buffer : Socket → Bytes
  pub send_slice : Bytes → Socket → SendError ⊎ (ℕ × Socket)
  pub close : Socket → Socket
  -- The interface, made for a MAC address, with an address and its prefix length.
  pub interface : Mac → Ipv4 → ℕ → Instant → Interface
  -- `poll`: from the received frames, the interface and the sockets to the frames that it sends,
  -- behind those that wait, and the two after it.
  pub poll :
      Instant → Queue → Queue → Interface → SocketSet → (Queue × Queue) × (Interface × SocketSet)
  pub show_listen_error : ListenError → String

module _ (smol : SmolTcp) where
  open smol use {
    Socket, SocketSet, Interface, Instant, RecvError, no_sockets, add, get, put, remove, can_recv,
    recv, recv_buffer, poll, new_socket, ListenError, listen_on, state,
  }

  -- What the crate documents of them.
  pub record SmolTcpLaws : Type 0 where
    pub get-no_sockets : (h : Handle) → get no_sockets h ≡ none
    pub get-add_fresh : (c : Socket) (s : SocketSet) → get s (add c s).0 ≡ none
    pub get-add_self : (c : Socket) (s : SocketSet) → get (add c s).1 (add c s).0 ≡ some c
    pub get-add_other :
        (c : Socket) (s : SocketSet) (h : Handle) → h ≢ (add c s).0 → get (add c s).1 h ≡ get s h
    pub get-put_self :
        (h : Handle) (c : Socket) (s : SocketSet)
        → is_some (get s h) ≡ true
        → get (put h c s) h ≡ some c
    pub get-put_other :
        (h k : Handle) (c : Socket) (s : SocketSet) → k ≢ h → get (put h c s) k ≡ get s k
    pub get-remove_self : (h : Handle) (s : SocketSet) → get (remove h s) h ≡ none
    pub get-remove_other : (h k : Handle) (s : SocketSet) → k ≢ h → get (remove h s) k ≡ get s k
    -- A poll neither adds nor removes a socket.
    pub is_some-poll :
        (now : Instant) (rx tx : Queue) (i : Interface) (s : SocketSet) (h : Handle)
        → is_some (get (poll now rx tx i s).1.1 h) ≡ is_some (get s h)
    pub listen_on-state :
        (port : ℕ) (n : ℕ) (c : Socket) → listen_on port (new_socket n) ≡ inr c → state c ≡ listen
    -- Data that can be received is handed out in pieces that are not empty, in the order of the
    -- buffer.
    pub recv-can_recv :
        (c : Socket)
        → can_recv c ≡ true
        → (b : ℕ) × ((bs : Bytes) × ((c' : Socket) × ((recv c ≡ inr (b ∷ bs, c'))
                × (b ∷ (bs ++ recv_buffer c') ≡ recv_buffer c))))
