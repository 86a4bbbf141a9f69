-- ===== src/HostIngress/Session.antt =====
-- `process_gateway_with_readiness` of `HostIngressBridge` in vm-frontend/src/host_ingress.rs: what
-- passes between the host and the guest in one round.
use wrapper.Common.{
  ℕ, ◌+◌, ◌-◌, Bool, true, not, ◌&&◌, none, some, List, [], ◌∷◌, ◌++◌, Bytes, length, ltb, leb,
  ◌==◌, if◌then◌else◌, inl, inr,
}
use wrapper.StreamBuffer.{
  within, over, extend_pending_buffer, ReadOutcome, payload, closed, would_block, done, io_error,
  read_nonblocking_chunk, write_pending_best_effort,
}
use wrapper.GuestTcp.Sockets.{Handle, State}
use wrapper.HostIngress.{
  HostIngressBufferLimits, HostIngressPumpLimits, host_write_buffer, guest_write_buffer,
  guest_closed_state, is_established, SessionGateway, HostIngressEvent, guest_payload, host_closed,
  guest_closed_event, guest_read_failed, host_read_failed, host_read_limit_reached,
  host_write_limit_reached, host_write_failed, buffer_limit_exceeded, Pump, send_and_report,
  close_and_remove,
}

abbrev is_empty : Bytes → Bool
is_empty bytes = length bytes == 0

module _ (sessions : SessionGateway) (buffer_limits : HostIngressBufferLimits)
    (pump_limits : HostIngressPumpLimits) (handle : Handle) where
  open sessions use {Gateway, receive}

  abbrev event : HostIngressEvent sessions → Pump sessions → Pump sessions
  event e p = record p { events = p.events ++ e ∷ [] }

  -- The pump after a read of the connection that gave the bytes.
  abbrev pub after_read : List (ℕ → ReadOutcome) → Bytes → Pump sessions → Pump sessions
  after_read reads bytes p = record p {
    session = record p.session {
      connection = record p.session.connection {
        reads = reads;
        given = p.session.connection.given ++ bytes;
      };
    };
  }

  abbrev pub with_pending : Bytes → Pump sessions → Pump sessions
  with_pending pending p = record p { session = record p.session { pending_guest_write = pending } }

  -- The loop over the reads of the host, with the bytes read so far.
  unfoldable pub host_read_loop : List (ℕ → ReadOutcome) → ℕ → Pump sessions → Pump sessions
  unfolding read_nonblocking_chunk extend_pending_buffer send_and_report
  host_read_loop [] read p =
      if pump_limits.host_read_bytes_per_session - read == 0
      then event
          (host_read_limit_reached handle p.session.guest_port
            pump_limits.host_read_bytes_per_session read)
          p
      else p
  host_read_loop (f ∷ reads) read p =
      if pump_limits.host_read_bytes_per_session - read == 0
      then event
          (host_read_limit_reached handle p.session.guest_port
            pump_limits.host_read_bytes_per_session read)
          p
      else elim (read_nonblocking_chunk f (pump_limits.host_read_bytes_per_session - read)) [
        | io_error e ↦
            close_and_remove sessions handle (host_closed handle p.session.guest_port)
              (event (host_read_failed handle e) (after_read reads [] p))
        | done closed ↦
            close_and_remove sessions handle (host_closed handle p.session.guest_port)
              (after_read reads [] p)
        | done would_block ↦ after_read reads [] p
        | done (payload bytes) ↦
            let p1 = after_read reads bytes p in
            let (r, pending) =
              extend_pending_buffer p.session.pending_guest_write bytes
                buffer_limits.pending_guest_write in
            let p2 = send_and_report sessions handle (length bytes) (with_pending pending p1) in
            let next = host_read_loop reads (read + length bytes) p2 in
            elim r [
              | over limit ↦
                  close_and_remove sessions handle
                    (buffer_limit_exceeded handle p.session.guest_port guest_write_buffer limit) p1
              | within u ↦
                  if not (is_empty p2.session.pending_guest_write)
                  then p2
                  else if leb pump_limits.host_read_bytes_per_session (read + length bytes)
                  then event
                      (host_read_limit_reached handle p.session.guest_port
                        pump_limits.host_read_bytes_per_session (read + length bytes))
                      p2
                  else next
            ]
      ]

  -- The direction from the host to the guest, for an established session.
  unfoldable pub pump_host : Bool → Pump sessions → Pump sessions
  unfolding host_read_loop send_and_report
  pump_host readable p =
      let p1 =
        if not (is_empty p.session.pending_guest_write)
        then send_and_report sessions handle 0 p
        else p in
      if readable && is_empty p1.session.pending_guest_write
      then host_read_loop p1.session.connection.reads 0 p1
      else p1

  -- The write of what is pending to the host, with its events.
  unfoldable pub write_and_report : Pump sessions → Pump sessions
  unfolding write_pending_best_effort
  write_and_report p =
      let limit = pump_limits.host_write_bytes_per_session in
      let w =
        write_pending_best_effort p.session.connection.writes p.session.pending_host_write limit in
      let p1 : Pump sessions = record p {
        session = record p.session {
          connection = record p.session.connection { writes = w.connection };
          pending_host_write = w.pending;
        };
      } in
      elim w.outcome [
        | io_error e ↦
            close_and_remove sessions handle (host_closed handle p.session.guest_port)
              (event (host_write_failed handle e) p1)
        | done bytes ↦
            if bytes == 0
            then p1
            else (let p2 = event (guest_payload handle p.session.guest_port bytes) p1 in
                if ltb 0 limit && (leb limit bytes && not (is_empty w.pending))
                then event (host_write_limit_reached handle p.session.guest_port limit bytes) p2
                else p2)
      ]

  -- What is noted of a guest that has closed its side.
  unfoldable pub note_guest_closed : State → Pump sessions → Pump sessions
  note_guest_closed st p =
      let guest_closed = if guest_closed_state st then some st else p.session.guest_closed in
      let p1 : Pump sessions = record p {
        session = record p.session { guest_closed = guest_closed };
      } in
      elim guest_closed [
        | none ↦ p1
        | some s ↦
            if is_empty p.session.pending_host_write
            then event (guest_closed_event handle p.session.guest_port s)
                (record p1 { removed = true })
            else p1
      ]

  -- The direction from the guest to the host.
  unfoldable pub pump_guest : State → Bool → Pump sessions → Pump sessions
  unfolding write_and_report note_guest_closed extend_pending_buffer
  pump_guest st writable p =
      let (r, g) = receive handle p.gateway in
      let p1 : Pump sessions = record p { gateway = g } in
      elim r [
        | inl e ↦ note_guest_closed st (event (guest_read_failed handle e) p1)
        | inr [] ↦ note_guest_closed st (
            if writable && not (is_empty p.session.pending_host_write)
            then write_and_report p1
            else p1)
        | inr (b ∷ bs) ↦
            let (e, pending) =
              extend_pending_buffer p.session.pending_host_write (b ∷ bs)
                buffer_limits.pending_host_write in
            elim e [
              | over limit ↦
                  close_and_remove sessions handle
                    (buffer_limit_exceeded handle p.session.guest_port host_write_buffer limit) p1
              | within u ↦ note_guest_closed st (
                  write_and_report
                    (record p1 { session = record p.session { pending_host_write = pending } }))
            ]
      ]

  -- One session in one round, by the state of its socket at the start.
  unfoldable pub pump_session : State → Bool → Bool → Pump sessions → Pump sessions
  unfolding pump_host pump_guest
  pump_session st readable writable p =
      let p1 = if is_established st then pump_host readable p else p in
      if not (is_established st) && not (guest_closed_state st)
      then p1
      else pump_guest st writable p1
