-- ===== src/HostIngress/Bridge.antt =====
-- `HostIngressBridge` of vm-frontend/src/host_ingress.rs: the sessions of the host by their handles,
-- and what it does with them in one round.
use wrapper.Common.{
  ℕ, ◌*◌, Bool, true, false, not, ◌||◌, Option, none, some, List, [], ◌∷◌, Bytes, length, ◌==◌,
  if◌then◌else◌, ◌⊎◌, inl, inr,
}
use wrapper.GuestTcp.Sockets.{Handle, State}
use wrapper.HostIngress.{
  default_host_ingress_first_local_port, allocate_local_port, HostConnection, HostIngressSession,
  HostIngressBufferLimits, HostIngressPumpLimits, default_buffer_limits, SessionGateway,
  HostIngressEvent,
}
use wrapper.HostIngress.Session.{pump_session}

pub record HostIngressBridge : Type 0 where
  pub sessions : Handle → Option HostIngressSession
  pub next_local_port : ℕ
  pub buffer_limits : HostIngressBufferLimits
  pub pump_limits : HostIngressPumpLimits

pub record HostIngressReadiness : Type 0 where
  pub poll_all : Bool
  pub readable : List Handle
  pub writable : List Handle

pub record HostSessionInterest : Type 0 where
  pub readable : Bool
  pub writable : Bool

pub record HostIngressOpen : Type 0 where
  pub handle : Handle
  pub guest_port : ℕ
  pub local_port : ℕ
  pub guest_frames : List Bytes

abbrev pub default_pump_limits : HostIngressPumpLimits
default_pump_limits = record {
  host_read_bytes_per_session = 1024 * 1024;
  host_write_bytes_per_session = 1024 * 1024;
}

abbrev pub new_bridge : HostIngressBridge
new_bridge = record {
  sessions = λ h. none;
  next_local_port = default_host_ingress_first_local_port;
  buffer_limits = default_buffer_limits;
  pump_limits = default_pump_limits;
}

-- `contains` of a vector of handles.
abbrev pub has_handle : Handle → List Handle → Bool
has_handle h [] = false
has_handle h (k ∷ ks) = h == k || has_handle h ks

abbrev pub all_ready : HostIngressReadiness
all_ready = record { poll_all = true; readable = []; writable = [] }

abbrev pub is_readable : HostIngressReadiness → Handle → Bool
is_readable r h = r.poll_all || has_handle h r.readable

abbrev pub is_writable : HostIngressReadiness → Handle → Bool
is_writable r h = r.poll_all || has_handle h r.writable

abbrev pub session_interest : Handle → HostIngressBridge → Option HostSessionInterest
session_interest h bridge = elim (bridge.sessions h) [
  | none ↦ none
  | some s ↦ some (record {
    readable = elim s.guest_closed [ none ↦ length s.pending_guest_write == 0 | some st ↦ false ];
    writable = not (length s.pending_host_write == 0);
  })
]

abbrev pub insert_session :
    Handle
    → HostIngressSession
    → (Handle → Option HostIngressSession)
    → Handle
    → Option HostIngressSession
insert_session h s table k = if k == h then some s else table k

module _ (sessions : SessionGateway) where
  open sessions use {Gateway, ConnectError, connect}

  -- A port is spent at an error too.
  unfoldable pub open_session :
      ℕ
      → HostConnection
      → HostIngressBridge
      → Gateway
      → (ConnectError ⊎ HostIngressOpen) × (HostIngressBridge × Gateway)
  open_session guest_port connection bridge g =
      let (local_port, next) = allocate_local_port bridge.next_local_port in
      let (r, g') = connect guest_port local_port g in
      let spent = record bridge { next_local_port = next } in
      elim r [
        | inl e ↦ (inl e, (spent, g'))
        | inr (handle, frames) ↦ (
          inr (record {
            handle = handle;
            guest_port = guest_port;
            local_port = local_port;
            guest_frames = frames;
          }),
          (
            record spent {
              sessions =
                  insert_session handle
                    (record {
                      guest_port = guest_port;
                      connection = connection;
                      pending_host_write = [];
                      pending_guest_write = [];
                      guest_closed = none;
                    })
                    bridge.sessions;
            },
            g',
          ),
        )
      ]

  -- The loop over the sessions of the gateway, with the handles to remove so far.
  pub record Round : Type 0 where
    pub table : Handle → Option HostIngressSession
    pub gateway : Gateway
    pub events : List (HostIngressEvent sessions)
    pub closed : List Handle

  unfoldable pub process_loop :
      HostIngressBufferLimits
      → HostIngressPumpLimits
      → HostIngressReadiness
      → List (Handle × State)
      → Round
      → Round
  unfolding pump_session
  process_loop buffer_limits pump_limits ready [] r = r
  process_loop buffer_limits pump_limits ready ((h, st) ∷ active) r = elim (r.table h) [
    | none ↦ process_loop buffer_limits pump_limits ready active r
    | some s ↦
        let p =
          pump_session sessions buffer_limits pump_limits h st (is_readable ready h)
            (is_writable ready h)
            (record { gateway = r.gateway; session = s; events = r.events; removed = false }) in
        process_loop buffer_limits pump_limits ready active (record {
          table = insert_session h p.session r.table;
          gateway = p.gateway;
          events = p.events;
          closed = if p.removed then h ∷ r.closed else r.closed;
        })
  ]

  -- `host_ingress_sessions` of the gateway is the list of the active ones.
  unfoldable pub process_gateway_with_readiness :
      List (Handle × State)
      → HostIngressReadiness
      → HostIngressBridge
      → Gateway
      → List (HostIngressEvent sessions) × (HostIngressBridge × Gateway)
  unfolding process_loop
  process_gateway_with_readiness active ready bridge g =
      let r =
        process_loop bridge.buffer_limits bridge.pump_limits ready active
          (record { table = bridge.sessions; gateway = g; events = []; closed = [] }) in
      (
        r.events,
        (
          record bridge { sessions = λ k. if has_handle k r.closed then none else r.table k },
          r.gateway,
        ),
      )
