-- ===== src/HostIngress.antt =====
-- vm-frontend/src/host_ingress.rs: the sessions that the host opens to the guest, and the bytes that
-- they pass on. A connection of the host is what its next calls will do, what it has given and what
-- it has taken.
pub mod Accept
pub mod Accepted
pub mod Account
pub mod Bridge
pub mod Flow
pub mod Gateway
pub mod Others
pub mod Reached
pub mod Session
pub mod Table
pub mod Tests
pub mod ToGuest
use wrapper.Common.{
  ℕ, ◌+◌, ◌-◌, ◌*◌, ◌%◌, ◌^◌, Bool, true, false, not, ◌&&◌, ◌||◌, Option, none, some, List, [], ◌∷◌,
  ◌++◌, Bytes, String, length, ltb, leb, ◌==◌, take, drop, if◌then◌else◌, ◌⊎◌, inl, inr,
}
use wrapper.StreamBuffer.{
  PendingBufferLimit, within, over, extend_pending_buffer, ReadOutcome, received, read_would_block,
  read_error, NonblockingRead, payload, closed, would_block, done, io_error, read_nonblocking_chunk,
  Connection, Written, write_pending_best_effort,
}
use wrapper.GuestTcp.Sockets.{Handle, State, established, close_wait, closing, last_ack, time_wait}
use wrapper.GuestTcp.Sockets

abbrev pub default_host_ingress_first_local_port : ℕ
default_host_ingress_first_local_port = 40000

-- `allocate_local_port`: the port, and the next one of a u16 that wraps.
abbrev pub allocate_local_port : ℕ → ℕ × ℕ
allocate_local_port next =
    let following = (next + 1) % 2 ^ 16 in (next, if ltb following 1024 then 1024 else following)

-- A read of at most the given size is the next one; an exhausted list blocks.
pub record HostConnection : Type 0 where
  pub reads : List (ℕ → ReadOutcome)
  pub given : Bytes
  pub writes : Connection

pub record HostIngressSession : Type 0 where
  pub guest_port : ℕ
  pub connection : HostConnection
  pub pending_host_write : Bytes
  pub pending_guest_write : Bytes
  pub guest_closed : Option State

pub record HostIngressBufferLimits : Type 0 where
  pub pending_host_write : ℕ
  pub pending_guest_write : ℕ

pub record HostIngressPumpLimits : Type 0 where
  pub host_read_bytes_per_session : ℕ
  pub host_write_bytes_per_session : ℕ

abbrev pub default_buffer_limits : HostIngressBufferLimits
default_buffer_limits = record {
  pending_host_write = 1024 * 1024;
  pending_guest_write = 1024 * 1024;
}

pub data HostIngressBufferKind : Type 0 where
  host_write_buffer guest_write_buffer : HostIngressBufferKind

abbrev pub guest_closed_state : State → Bool
guest_closed_state close_wait = true
guest_closed_state closing = true
guest_closed_state last_ack = true
guest_closed_state time_wait = true
guest_closed_state Sockets.closed = true
guest_closed_state _ = false

abbrev pub is_established : State → Bool
is_established established = true
is_established _ = false

abbrev is_empty : Bytes → Bool
is_empty bytes = length bytes == 0

-- What the bridge needs of `VmnetGateway`, for handles whose sockets are in the set, where its calls
-- do not panic: `sent` and `got` are the bytes that a session has taken and given out so far.
pub record SessionGateway : Type 1 where
  pub Gateway : Type 0
  pub RecvError : Type 0
  pub SendError : Type 0
  pub ConnectError : Type 0
  pub connect : ℕ → ℕ → Gateway → (ConnectError ⊎ (Handle × List Bytes)) × Gateway
  pub send : Handle → Bytes → Gateway → (SendError ⊎ (ℕ × List Bytes)) × Gateway
  pub receive : Handle → Gateway → (RecvError ⊎ Bytes) × Gateway
  pub close : Handle → Gateway → List Bytes × Gateway
  pub sent : Handle → Gateway → Bytes
  pub got : Handle → Gateway → Bytes

module _ (sessions : SessionGateway) where
  open sessions use {Gateway, RecvError, SendError, send, receive, close}

  -- The events of a session; those of the listeners are made by the caller.
  pub data HostIngressEvent : Type 0 where
    host_payload : Handle → ℕ → ℕ → List Bytes → HostIngressEvent
    guest_payload : Handle → ℕ → ℕ → HostIngressEvent
    host_closed : Handle → ℕ → List Bytes → HostIngressEvent
    guest_closed_event : Handle → ℕ → State → HostIngressEvent
    guest_read_failed : Handle → RecvError → HostIngressEvent
    guest_write_failed : Handle → SendError → HostIngressEvent
    host_read_failed : Handle → String → HostIngressEvent
    host_read_limit_reached : Handle → ℕ → ℕ → ℕ → HostIngressEvent
    host_write_limit_reached : Handle → ℕ → ℕ → ℕ → HostIngressEvent
    host_write_failed : Handle → String → HostIngressEvent
    buffer_limit_exceeded :
        Handle → ℕ → HostIngressBufferKind → PendingBufferLimit → List Bytes → HostIngressEvent

  -- A session while it is pumped: the events so far, and whether its handle is to be removed.
  pub record Pump : Type 0 where
    pub gateway : Gateway
    pub session : HostIngressSession
    pub events : List HostIngressEvent
    pub removed : Bool

  abbrev event : HostIngressEvent → Pump → Pump
  event e p = record p { events = p.events ++ e ∷ [] }

  unfoldable pub send_pending_guest_write :
      Handle → Bytes → Gateway → (SendError ⊎ List Bytes) × (Bytes × Gateway)
  send_pending_guest_write handle pending g =
      if is_empty pending
      then (inr [], (pending, g))
      else (let (r, g') = send handle pending g in
          elim r [
            | inl e ↦ (inl e, (pending, g'))
            | inr (written, frames) ↦ (inr frames, (drop written pending, g'))
          ])

  -- The send of what is pending to the guest, with its event; `bytes` are those just read.
  unfoldable pub send_and_report : Handle → ℕ → Pump → Pump
  unfolding send_pending_guest_write
  send_and_report handle bytes p =
      let (r, (pending, g)) =
        send_pending_guest_write handle p.session.pending_guest_write p.gateway in
      let p' : Pump = record p {
        gateway = g;
        session = record p.session { pending_guest_write = pending };
      } in
      elim r [
        | inr frames ↦ event (host_payload handle p.session.guest_port bytes frames) p'
        | inl e ↦ event (guest_write_failed handle e) p'
      ]

  -- `close_tcp_session` and the removal of the handle, with the event that its frames make.
  abbrev pub close_and_remove : Handle → (List Bytes → HostIngressEvent) → Pump → Pump
  close_and_remove handle make p =
      let (frames, g) = close handle p.gateway in
      event (make frames) (record p { gateway = g; removed = true })
