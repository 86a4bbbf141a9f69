-- ===== src/HostIngress/ToGuest.antt =====
-- The bytes that vm-frontend/src/host_ingress.rs reads of the host reach the guest or stay pending.
use wrapper.Common.{
  ℕ, ◌+◌, ◌-◌, ◌≤◌, ◌<◌, ◌≡◌, refl, ap, ◌∙◌, sym, Bool, ◌&&◌, List, [], ◌∷◌, ◌++◌, append-nil,
  append_assoc, take-append-drop, length-append, length-drop, Bytes, length, leb, ◌==◌, take, drop,
  arith, inl, inr, Bool-cases, ⊎-cases, if◌then◌else◌,
}
use wrapper.StreamBuffer.{usize_max, ReadOutcome, read_nonblocking_chunk}
use wrapper.StreamBuffer.Laws.{extend_pending_buffer_lem}
use wrapper.GuestTcp.Sockets.{Handle}
use wrapper.HostIngress.{
  HostIngressBufferLimits, HostIngressPumpLimits, SessionGateway, Pump, send_pending_guest_write,
  send_and_report,
}
use wrapper.HostIngress.Session.{host_read_loop, pump_host, after_read, with_pending}
use wrapper.HostIngress.Account.{
  SessionGatewayLaws, Flow, keep, IoResult-cases, NonblockingRead-cases,
}

module _ (sessions : SessionGateway) (laws : SessionGatewayLaws sessions)
    (buffer_limits : HostIngressBufferLimits) (handle : Handle) where
  open sessions use {Gateway, RecvError, SendError, send, receive, close, sent, got}
  open laws use {send-SendKeeps}

  send_pending_guest_write_lem :
      (pending : Bytes) (g : Gateway)
      → let w = send_pending_guest_write sessions handle pending g in
        (sent handle w.1.1 ++ w.1.0 ≡ sent handle g ++ pending)
        × ((got handle w.1.1 ≡ got handle g) × (length w.1.0 ≤ length pending))
  unfolding send_pending_guest_write
  send_pending_guest_write_lem pending g = elim (Bool-cases (length pending == 0)) [
    | inl e ↦ rw (send_pending_guest_write, e) (refl, (refl, omega arith))
    | inr e ↦ elim (⊎-cases (send handle pending g).0) [
      | inl (x, q) ↦
          let k = rw q at (send-SendKeeps handle pending g) in
          rw (send_pending_guest_write, e, q) (ap (λ t. t ++ pending) k.0, (k.1, omega arith))
      | inr ((n, frames), q) ↦
          let k = rw q at (send-SendKeeps handle pending g) in
          rw (send_pending_guest_write, e, q)
            (
              ap (λ t. t ++ drop n pending) k.0
                  ∙ append_assoc (sent handle g) (take n pending) (drop n pending)
                  ∙ ap (λ t. sent handle g ++ t) (take-append-drop n pending),
              (k.1, omega (arith, length-drop n pending)),
            )
    ]
  ]

  send_and_report-Flow :
      (bytes : ℕ) (p : Pump sessions)
      → Flow sessions buffer_limits handle p
      → Flow sessions buffer_limits handle (send_and_report sessions handle bytes p)
  unfolding send_and_report
  send_and_report-Flow bytes p f =
      let (k, (l, m)) = send_pending_guest_write_lem p.session.pending_guest_write p.gateway in
      elim (⊎-cases
        (send_pending_guest_write sessions handle p.session.pending_guest_write p.gateway).0) [
          | inl (e, q) ↦
              rw (send_and_report, q)
                (keep (λ (a, b). ((k ∙ a.0, omega (arith, m, a.1)), (b.0 ∙ sym l, b.1))) f)
          | inr (e, q) ↦
              rw (send_and_report, q)
                (keep (λ (a, b). ((k ∙ a.0, omega (arith, m, a.1)), (b.0 ∙ sym l, b.1))) f)
        ]

module _ (sessions : SessionGateway) (laws : SessionGatewayLaws sessions)
    (buffer_limits : HostIngressBufferLimits) (pump_limits : HostIngressPumpLimits)
    (handle : Handle) (hg : buffer_limits.pending_guest_write < usize_max) where
  open sessions use {Gateway, RecvError, SendError, send, receive, close, sent, got}

  host_read_loop-Flow :
      (reads : List (ℕ → ReadOutcome)) (read : ℕ) (p : Pump sessions)
      → Flow sessions buffer_limits handle p
      → Flow sessions buffer_limits handle
          (host_read_loop sessions buffer_limits pump_limits handle reads read p)
  unfolding host_read_loop
  host_read_loop-Flow [] read p f =
      elim (Bool-cases (pump_limits.host_read_bytes_per_session - read == 0)) [
        | inl e ↦ rw (host_read_loop, e) f
        | inr e ↦ rw (host_read_loop, e) f
      ]
  host_read_loop-Flow (o ∷ reads) read p f =
      let nothing : Flow sessions buffer_limits handle
          (after_read sessions buffer_limits pump_limits handle reads [] p) =
        keep (λ (a, b). ((a.0 ∙ sym (append-nil p.session.connection.given), a.1), b)) f in
      elim (Bool-cases (pump_limits.host_read_bytes_per_session - read == 0)) [
        | inl e ↦ rw (host_read_loop, e) f
        | inr e ↦
            elim (IoResult-cases
              (read_nonblocking_chunk o (pump_limits.host_read_bytes_per_session - read))) [
                | inr (x, q) ↦ rw (host_read_loop, q, e) (inl refl)
                | inl (r, q) ↦ elim (NonblockingRead-cases r) [
                  | inr (inl c) ↦ rw (host_read_loop, q, e, c) (inl refl)
                  | inr (inr c) ↦ rw (host_read_loop, q, e, c) nothing
                  | inl (bytes, c) ↦
                      elim (extend_pending_buffer_lem p.session.pending_guest_write bytes
                        buffer_limits.pending_guest_write hg) [
                          | inr (big, x) ↦ rw (host_read_loop, q, e, c, x) (inl refl)
                          | inl (small, x) ↦
                              let p2 = send_and_report sessions handle (length bytes) (
                                with_pending sessions buffer_limits pump_limits handle
                                  (p.session.pending_guest_write ++ bytes)
                                  (after_read sessions buffer_limits pump_limits handle reads bytes
                                    p)) in
                              let f2 : Flow sessions buffer_limits handle p2 =
                                send_and_report-Flow sessions laws buffer_limits handle
                                  (length bytes)
                                  (with_pending sessions buffer_limits pump_limits handle
                                    (p.session.pending_guest_write ++ bytes)
                                    (after_read sessions buffer_limits pump_limits handle reads
                                      bytes p))
                                  (keep
                                    (λ (a, b). (
                                      (
                                        sym (
                                              append_assoc (sent handle p.gateway)
                                                p.session.pending_guest_write bytes)
                                            ∙ ap (λ t. t ++ bytes) a.0,
                                        omega (
                                          arith,
                                          small,
                                          length-append p.session.pending_guest_write bytes,
                                        ),
                                      ),
                                      b,
                                    ))
                                    f) in
                              elim (Bool-cases (length p2.session.pending_guest_write == 0)) [
                                | inr n ↦
                                    rw
                                      (host_read_loop, q, e, c, ap (λ t. t.0) x, ap (λ t. t.1) x, n)
                                      f2
                                | inl n ↦
                                    elim (Bool-cases (
                                      leb pump_limits.host_read_bytes_per_session
                                        (read + length bytes))) [
                                          | inl m ↦
                                              rw
                                                (
                                                  host_read_loop,
                                                  q,
                                                  e,
                                                  c,
                                                  ap (λ t. t.0) x,
                                                  ap (λ t. t.1) x,
                                                  n,
                                                  m,
                                                )
                                                f2
                                          | inr m ↦
                                              rw
                                                (
                                                  host_read_loop,
                                                  q,
                                                  e,
                                                  c,
                                                  ap (λ t. t.0) x,
                                                  ap (λ t. t.1) x,
                                                  n,
                                                  m,
                                                )
                                                (host_read_loop-Flow reads (read + length bytes) p2
                                                  f2)
                                        ]
                              ]
                        ]
                ]
              ]
      ]

  pub pump_host-Flow :
      (readable : Bool) (p : Pump sessions)
      → Flow sessions buffer_limits handle p
      → Flow sessions buffer_limits handle
          (pump_host sessions buffer_limits pump_limits handle readable p)
  unfolding pump_host
  pump_host-Flow readable p f = elim (Bool-cases (length p.session.pending_guest_write == 0)) [
    | inl e ↦ rw (pump_host, e) (read p f)
    | inr e ↦
        rw (pump_host, e)
          (read (send_and_report sessions handle 0 p)
            (send_and_report-Flow sessions laws buffer_limits handle 0 p f))
  ]
    where
      read :
          (q : Pump sessions)
          → Flow sessions buffer_limits handle q
          → Flow sessions buffer_limits handle (
              if readable && length q.session.pending_guest_write == 0
              then host_read_loop sessions buffer_limits pump_limits handle
                  q.session.connection.reads 0 q
              else q)
      read q f = elim (Bool-cases (readable && length q.session.pending_guest_write == 0)) [
        | inl e ↦ rw e (host_read_loop-Flow q.session.connection.reads 0 q f)
        | inr e ↦ rw e f
      ]
