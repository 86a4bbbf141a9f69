-- ===== src/HostIngress/Flow.antt =====
-- What vm-frontend/src/host_ingress.rs passes between the host and the guest arrives as it was given.
use wrapper.Common.{
  ◌≤◌, ◌<◌, refl, ap, ◌∙◌, sym, Bool, not, some, ◌&&◌, [], ◌∷◌, ◌++◌, append-nil, append_assoc,
  length-append, length, leb, ltb, ◌==◌, arith, inl, inr, Bool-cases, Option-cases, ⊎-cases,
  if◌then◌else◌,
}
use wrapper.StreamBuffer.{usize_max, write_pending_best_effort}
use wrapper.StreamBuffer.Laws.{extend_pending_buffer_lem, write_pending_best_effort_lem}
use wrapper.GuestTcp.Sockets.{Handle, State}
use wrapper.HostIngress.{
  HostIngressBufferLimits, HostIngressPumpLimits, SessionGateway, guest_read_failed,
  guest_closed_state, is_established, Pump,
}
use wrapper.HostIngress.Session.{
  pump_host, write_and_report, note_guest_closed, pump_guest, pump_session,
}
use wrapper.HostIngress.Account.{SessionGatewayLaws, Flow, keep, IoResult-cases}
use wrapper.HostIngress.ToGuest.{pump_host-Flow}

module _ (sessions : SessionGateway) (laws : SessionGatewayLaws sessions)
    (buffer_limits : HostIngressBufferLimits) (pump_limits : HostIngressPumpLimits)
    (handle : Handle) (hg : buffer_limits.pending_guest_write < usize_max)
    (hh : buffer_limits.pending_host_write < usize_max) where
  open sessions use {Gateway, RecvError, SendError, send, receive, close, sent, got}
  open laws use {receive-ReceiveKeeps}

  write_and_report-Flow :
      (p : Pump sessions)
      → Flow sessions buffer_limits handle p
      → Flow sessions buffer_limits handle
          (write_and_report sessions buffer_limits pump_limits handle p)
  unfolding write_and_report
  write_and_report-Flow p f =
      let limit = pump_limits.host_write_bytes_per_session in
      let w =
        write_pending_best_effort p.session.connection.writes p.session.pending_host_write limit in
      let (k, l) =
        write_pending_best_effort_lem p.session.connection.writes p.session.pending_host_write
          limit in
      elim (IoResult-cases w.outcome) [
        | inr (e, q) ↦ rw (write_and_report, q) (inl refl)
        | inl (bytes, q) ↦
            let taken = p.session.connection.writes.taken in
            let less : length w.pending ≤ length p.session.pending_host_write = omega (
              arith,
              (rw q at l).0,
              ap length k,
              length-append w.connection.taken w.pending,
              length-append taken p.session.pending_host_write,
            ) in
            let f1 = keep (λ (a, b). (a, (k ∙ b.0, omega (arith, less, b.1)))) f in
            elim (Bool-cases (bytes == 0)) [
              | inl z ↦ rw (write_and_report, q, z) f1
              | inr z ↦
                  elim (Bool-cases
                    (ltb 0 limit && (leb limit bytes && not (length w.pending == 0)))) [
                      | inl y ↦ rw (write_and_report, q, z, y) f1
                      | inr y ↦ rw (write_and_report, q, z, y) f1
                    ]
            ]
      ]

  note_guest_closed-Flow :
      (st : State) (p : Pump sessions)
      → Flow sessions buffer_limits handle p
      → Flow sessions buffer_limits handle
          (note_guest_closed sessions buffer_limits pump_limits handle st p)
  unfolding note_guest_closed
  note_guest_closed-Flow st p f =
      elim (Option-cases (if guest_closed_state st then some st else p.session.guest_closed)) [
        | inl e ↦ rw (note_guest_closed, e) f
        | inr (s, e) ↦ elim (Bool-cases (length p.session.pending_host_write == 0)) [
          | inl z ↦ rw (note_guest_closed, e, z) (inl refl)
          | inr z ↦ rw (note_guest_closed, e, z) f
        ]
      ]

  pump_guest-Flow :
      (st : State) (writable : Bool) (p : Pump sessions)
      → Flow sessions buffer_limits handle p
      → Flow sessions buffer_limits handle
          (pump_guest sessions buffer_limits pump_limits handle st writable p)
  unfolding pump_guest
  pump_guest-Flow st writable p f =
      let g = (receive handle p.gateway).1 in
      let k = receive-ReceiveKeeps handle p.gateway in
      elim (⊎-cases (receive handle p.gateway).0) [
        | inl (e, q) ↦
            let (a, b) = rw q at k in
            rw (pump_guest, q)
              (note_guest_closed-Flow st
                (record p { gateway = g; events = p.events ++ guest_read_failed handle e ∷ [] })
                (keep
                  (λ (c, d). (
                    (ap (λ t. t ++ p.session.pending_guest_write) a ∙ c.0, c.1),
                    (d.0 ∙ sym b, d.1),
                  ))
                  f))
        | inr ([], q) ↦
            let (a, b) = rw q at k in
            let f1 : Flow sessions buffer_limits handle (record p { gateway = g }) =
              keep
                (λ (c, d). (
                  (ap (λ t. t ++ p.session.pending_guest_write) a ∙ c.0, c.1),
                  (d.0 ∙ sym (b ∙ append-nil (got handle p.gateway)), d.1),
                ))
                f in
            elim (Bool-cases (writable && not (length p.session.pending_host_write == 0))) [
              | inl e ↦
                  rw (pump_guest, q, e)
                    (note_guest_closed-Flow st
                      (write_and_report sessions buffer_limits pump_limits handle
                        (record p { gateway = g }))
                      (write_and_report-Flow (record p { gateway = g }) f1))
              | inr e ↦
                  rw (pump_guest, q, e) (note_guest_closed-Flow st (record p { gateway = g }) f1)
            ]
        | inr (x ∷ xs, q) ↦
            let (a, b) = rw q at k in
            elim (extend_pending_buffer_lem p.session.pending_host_write (x ∷ xs)
              buffer_limits.pending_host_write hh) [
                | inr (big, y) ↦ rw (pump_guest, q, y) (inl refl)
                | inl (small, y) ↦
                    let p1 : Pump sessions = record p {
                      gateway = g;
                      session = record p.session {
                        pending_host_write = p.session.pending_host_write ++ x ∷ xs;
                      };
                    } in
                    rw (pump_guest, q, ap (λ t. t.0) y, ap (λ t. t.1) y)
                      (note_guest_closed-Flow st
                        (write_and_report sessions buffer_limits pump_limits handle p1)
                        (write_and_report-Flow p1 (
                          keep
                            (λ (c, d). (
                              (ap (λ t. t ++ p.session.pending_guest_write) a ∙ c.0, c.1),
                              (
                                sym (
                                      append_assoc p.session.connection.writes.taken
                                        p.session.pending_host_write (x ∷ xs))
                                    ∙ ap (λ t. t ++ x ∷ xs) d.0
                                    ∙ sym b,
                                omega (
                                  arith,
                                  small,
                                  length-append p.session.pending_host_write (x ∷ xs),
                                ),
                              ),
                            ))
                            f)))
              ]
      ]

  -- For buffer limits below 2^64 - 1, a gateway that keeps account of what it takes and gives, and any
  -- reads and writes of the connection, blocked, partial and failed ones included: if a session is
  -- to be removed, or in each direction what has arrived followed by what is pending is what was
  -- given, with the pending bytes within their limit, then the same holds after one round.
  pub pump_session-Flow :
      (st : State) (readable writable : Bool) (p : Pump sessions)
      → Flow sessions buffer_limits handle p
      → Flow sessions buffer_limits handle
          (pump_session sessions buffer_limits pump_limits handle st readable writable p)
  unfolding pump_session
  pump_session-Flow st readable writable p f = elim (Bool-cases (is_established st)) [
    | inl e ↦
        rw (pump_session, e)
          (pump_guest-Flow st writable
            (pump_host sessions buffer_limits pump_limits handle readable p)
            (pump_host-Flow sessions laws buffer_limits pump_limits handle hg readable p f))
    | inr e ↦ elim (Bool-cases (guest_closed_state st)) [
      | inl c ↦ rw (pump_session, e, c) (pump_guest-Flow st writable p f)
      | inr c ↦ rw (pump_session, e, c) f
    ]
  ]
