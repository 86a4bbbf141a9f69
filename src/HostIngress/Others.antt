-- ===== src/HostIngress/Others.antt =====
-- A session of vm-frontend/src/host_ingress.rs leaves the other sessions of the gateway alone.
use wrapper.Common.{
  ℕ, ◌+◌, ◌-◌, ◌≡◌, refl, ◌∙◌, Bool, not, ◌&&◌, some, List, [], ◌∷◌, ◌++◌, Bytes, length, leb, ltb,
  ◌==◌, inl, inr, ◌⊎◌, Bool-cases, Option-cases, ⊎-cases, if◌then◌else◌,
}
use wrapper.StreamBuffer.{
  Checked, PendingBufferLimit, within, over, extend_pending_buffer, ReadOutcome,
  read_nonblocking_chunk, write_pending_best_effort,
}
use wrapper.GuestTcp.Sockets.{Handle, State}
use wrapper.HostIngress.{
  HostIngressBufferLimits, HostIngressPumpLimits, SessionGateway, guest_closed_state,
  guest_read_failed, is_established, Pump, send_pending_guest_write, send_and_report,
}
use wrapper.HostIngress.Session.{
  host_read_loop, pump_host, write_and_report, note_guest_closed, pump_guest, pump_session,
  after_read, with_pending,
}
use wrapper.HostIngress.Account.{SessionGatewayLaws, Others, IoResult-cases, NonblockingRead-cases}

Checked-cases :
    (r : Checked (Unit {0})) → (r ≡ within tt) ⊎ ((limit : PendingBufferLimit) × (r ≡ over limit))
Checked-cases (within tt) = inl refl
Checked-cases (over limit) = inr (limit, refl)

module _ (sessions : SessionGateway) (laws : SessionGatewayLaws sessions)
    (buffer_limits : HostIngressBufferLimits) (pump_limits : HostIngressPumpLimits)
    (handle : Handle) where
  open sessions use {Gateway, send, receive, close, sent, got}
  open laws use {send-Others, receive-Others, close-Others}

  abbrev Same : Gateway → Gateway → Type 0
  Same g g' = Others sessions handle g g'

  untouched : (g : Gateway) → Same g g
  untouched g k n = (refl, refl)

  touched_twice : (g h i : Gateway) → Same g h → Same h i → Same g i
  touched_twice g h i a b k n = ((b k n).0 ∙ (a k n).0, (b k n).1 ∙ (a k n).1)

  send_pending_guest_write-Others :
      (pending : Bytes) (g : Gateway)
      → Same g (send_pending_guest_write sessions handle pending g).1.1
  unfolding send_pending_guest_write
  send_pending_guest_write-Others pending g = elim (Bool-cases (length pending == 0)) [
    | inl e ↦ rw (send_pending_guest_write, e) (untouched g)
    | inr e ↦ elim (⊎-cases (send handle pending g).0) [
      | inl (x, q) ↦ rw (send_pending_guest_write, e, q) (send-Others handle pending g)
      | inr (x, q) ↦ rw (send_pending_guest_write, e, q) (send-Others handle pending g)
    ]
  ]

  send_and_report-Others :
      (bytes : ℕ) (p : Pump sessions)
      → Same p.gateway (send_and_report sessions handle bytes p).gateway
  unfolding send_and_report
  send_and_report-Others bytes p =
      let k = send_pending_guest_write-Others p.session.pending_guest_write p.gateway in
      elim (⊎-cases
        (send_pending_guest_write sessions handle p.session.pending_guest_write p.gateway).0) [
          | inl (e, q) ↦ rw (send_and_report, q) k
          | inr (e, q) ↦ rw (send_and_report, q) k
        ]

  host_read_loop-Others :
      (reads : List (ℕ → ReadOutcome)) (read : ℕ) (p : Pump sessions)
      → Same p.gateway
          (host_read_loop sessions buffer_limits pump_limits handle reads read p).gateway
  unfolding host_read_loop
  host_read_loop-Others [] read p =
      elim (Bool-cases (pump_limits.host_read_bytes_per_session - read == 0)) [
        | inl e ↦ rw (host_read_loop, e) (untouched p.gateway)
        | inr e ↦ rw (host_read_loop, e) (untouched p.gateway)
      ]
  host_read_loop-Others (o ∷ reads) read p =
      elim (Bool-cases (pump_limits.host_read_bytes_per_session - read == 0)) [
        | inl e ↦ rw (host_read_loop, e) (untouched p.gateway)
        | inr e ↦
            elim (IoResult-cases
              (read_nonblocking_chunk o (pump_limits.host_read_bytes_per_session - read))) [
                | inr (x, q) ↦ rw (host_read_loop, q, e) (close-Others handle p.gateway)
                | inl (r, q) ↦ elim (NonblockingRead-cases r) [
                  | inr (inl c) ↦ rw (host_read_loop, q, e, c) (close-Others handle p.gateway)
                  | inr (inr c) ↦ rw (host_read_loop, q, e, c) (untouched p.gateway)
                  | inl (bytes, c) ↦
                      elim (Checked-cases
                        (extend_pending_buffer p.session.pending_guest_write bytes
                          buffer_limits.pending_guest_write).0) [
                            | inr (limit, x) ↦
                                rw (host_read_loop, q, e, c, x) (close-Others handle p.gateway)
                            | inl x ↦
                                let p1 =
                                  with_pending sessions buffer_limits pump_limits handle
                                    (extend_pending_buffer p.session.pending_guest_write bytes
                                      buffer_limits.pending_guest_write).1
                                    (after_read sessions buffer_limits pump_limits handle reads
                                      bytes p) in
                                let p2 = send_and_report sessions handle (length bytes) p1 in
                                let k = send_and_report-Others (length bytes) p1 in
                                elim (Bool-cases (length p2.session.pending_guest_write == 0)) [
                                  | inr n ↦ rw (host_read_loop, q, e, c, x, n) k
                                  | inl n ↦
                                      elim (Bool-cases (
                                        leb pump_limits.host_read_bytes_per_session
                                          (read + length bytes))) [
                                            | inl m ↦ rw (host_read_loop, q, e, c, x, n, m) k
                                            | inr m ↦
                                                rw (host_read_loop, q, e, c, x, n, m)
                                                  (touched_twice p.gateway p2.gateway _ k (
                                                    host_read_loop-Others reads
                                                      (read + length bytes) p2))
                                          ]
                                ]
                          ]
                ]
              ]
      ]

  pump_host-Others :
      (readable : Bool) (p : Pump sessions)
      → Same p.gateway (pump_host sessions buffer_limits pump_limits handle readable p).gateway
  unfolding pump_host
  pump_host-Others readable p = elim (Bool-cases (length p.session.pending_guest_write == 0)) [
    | inl e ↦ rw (pump_host, e) (read p)
    | inr e ↦
        rw (pump_host, e)
          (touched_twice p.gateway (send_and_report sessions handle 0 p).gateway _
            (send_and_report-Others 0 p) (read (send_and_report sessions handle 0 p)))
  ]
    where
      read :
          (q : Pump sessions)
          → Same q.gateway
              (if readable && length q.session.pending_guest_write == 0
                then host_read_loop sessions buffer_limits pump_limits handle
                    q.session.connection.reads 0 q
                else q).gateway
      read q = elim (Bool-cases (readable && length q.session.pending_guest_write == 0)) [
        | inl e ↦ rw e (host_read_loop-Others q.session.connection.reads 0 q)
        | inr e ↦ rw e (untouched q.gateway)
      ]

  write_and_report-Others :
      (p : Pump sessions)
      → Same p.gateway (write_and_report sessions buffer_limits pump_limits handle p).gateway
  unfolding write_and_report
  write_and_report-Others p =
      let limit = pump_limits.host_write_bytes_per_session in
      let w =
        write_pending_best_effort p.session.connection.writes p.session.pending_host_write limit in
      elim (IoResult-cases w.outcome) [
        | inr (e, q) ↦ rw (write_and_report, q) (close-Others handle p.gateway)
        | inl (bytes, q) ↦ elim (Bool-cases (bytes == 0)) [
          | inl z ↦ rw (write_and_report, q, z) (untouched p.gateway)
          | inr z ↦
              elim (Bool-cases (ltb 0 limit && (leb limit bytes && not (length w.pending == 0)))) [
                | inl y ↦ rw (write_and_report, q, z, y) (untouched p.gateway)
                | inr y ↦ rw (write_and_report, q, z, y) (untouched p.gateway)
              ]
        ]
      ]

  note_guest_closed-Others :
      (st : State) (p : Pump sessions)
      → Same p.gateway (note_guest_closed sessions buffer_limits pump_limits handle st p).gateway
  unfolding note_guest_closed
  note_guest_closed-Others st p =
      elim (Option-cases (if guest_closed_state st then some st else p.session.guest_closed)) [
        | inl e ↦ rw (note_guest_closed, e) (untouched p.gateway)
        | inr (s, e) ↦ elim (Bool-cases (length p.session.pending_host_write == 0)) [
          | inl z ↦ rw (note_guest_closed, e, z) (untouched p.gateway)
          | inr z ↦ rw (note_guest_closed, e, z) (untouched p.gateway)
        ]
      ]

  pump_guest-Others :
      (st : State) (writable : Bool) (p : Pump sessions)
      → Same p.gateway (pump_guest sessions buffer_limits pump_limits handle st writable p).gateway
  unfolding pump_guest
  pump_guest-Others st writable p =
      let g = (receive handle p.gateway).1 in
      let k = receive-Others handle p.gateway in
      let written = λ (p1 : Pump sessions).
        touched_twice p1.gateway
          (write_and_report sessions buffer_limits pump_limits handle p1).gateway _
          (write_and_report-Others p1)
          (note_guest_closed-Others st
            (write_and_report sessions buffer_limits pump_limits handle p1)) in
      elim (⊎-cases (receive handle p.gateway).0) [
        | inl (e, q) ↦
            rw (pump_guest, q)
              (touched_twice p.gateway g _ k (
                note_guest_closed-Others st
                  (record p { gateway = g; events = p.events ++ guest_read_failed handle e ∷ [] })))
        | inr ([], q) ↦
            elim (Bool-cases (writable && not (length p.session.pending_host_write == 0))) [
              | inl e ↦
                  rw (pump_guest, q, e)
                    (touched_twice p.gateway g _ k (written (record p { gateway = g })))
              | inr e ↦
                  rw (pump_guest, q, e)
                    (touched_twice p.gateway g _ k
                      (note_guest_closed-Others st (record p { gateway = g })))
            ]
        | inr (x ∷ xs, q) ↦
            elim (Checked-cases
              (extend_pending_buffer p.session.pending_host_write (x ∷ xs)
                buffer_limits.pending_host_write).0) [
                  | inr (limit, y) ↦
                      rw (pump_guest, q, y) (touched_twice p.gateway g _ k (close-Others handle g))
                  | inl y ↦
                      rw (pump_guest, q, y)
                        (touched_twice p.gateway g _ k (
                          written (record p {
                            gateway = g;
                            session = record p.session {
                              pending_host_write =
                                  (extend_pending_buffer p.session.pending_host_write (x ∷ xs)
                                    buffer_limits.pending_host_write).1;
                            };
                          })))
                ]
      ]

  pub pump_session-Others :
      (st : State) (readable writable : Bool) (p : Pump sessions)
      → Others sessions handle p.gateway
          (pump_session sessions buffer_limits pump_limits handle st readable writable p).gateway
  unfolding pump_session
  pump_session-Others st readable writable p = elim (Bool-cases (is_established st)) [
    | inl e ↦
        let p1 = pump_host sessions buffer_limits pump_limits handle readable p in
        rw (pump_session, e)
          (touched_twice p.gateway p1.gateway _ (pump_host-Others readable p)
            (pump_guest-Others st writable p1))
    | inr e ↦ elim (Bool-cases (guest_closed_state st)) [
      | inl c ↦ rw (pump_session, e, c) (pump_guest-Others st writable p)
      | inr c ↦ rw (pump_session, e, c) (untouched p.gateway)
    ]
  ]
