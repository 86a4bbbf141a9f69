-- ===== src/HostIngress/Table.antt =====
-- The table of sessions of vm-frontend/src/host_ingress.rs: what each session has passed on is kept
-- account of by every operation of the bridge.
use wrapper.Common.{
  ℕ, ◌<◌, ◌≡◌, ◌≢◌, refl, sym, ap, subst, append-nil, ◌∙◌, Bool, true, false, ◌||◌, Option, none,
  some, List, [], ◌∷◌, ◌++◌, ◌==◌, ==_iff, arith, inl, inr, ◌⊎◌, Bool-cases, Option-cases, ⊎-cases,
  if◌then◌else◌,
}
use wrapper.StreamBuffer.{usize_max}
use wrapper.GuestTcp.Sockets.{Handle, State}
use wrapper.HostIngress.{
  allocate_local_port, HostConnection, HostIngressSession, HostIngressBufferLimits,
  HostIngressPumpLimits, SessionGateway, Pump,
}
use wrapper.HostIngress.Session.{pump_session}
use wrapper.HostIngress.Bridge.{
  HostIngressBridge, HostIngressReadiness, has_handle, is_readable, is_writable, insert_session,
  open_session, Round, process_loop, process_gateway_with_readiness,
}
use wrapper.HostIngress.Account.{SessionGatewayLaws, Others, Conserved, Flow}
use wrapper.HostIngress.Flow.{pump_session-Flow}
use wrapper.HostIngress.Others.{pump_session-Others}

module _ (sessions : SessionGateway) (buffer_limits : HostIngressBufferLimits) where
  open sessions use {Gateway}

  abbrev pub EntryConserved : Gateway → Handle → Option HostIngressSession → Type 0
  EntryConserved g h none = Unit {0}
  EntryConserved g h (some s) = Conserved sessions buffer_limits h g s

  -- Every session of the table has what was given to it, in both directions.
  abbrev pub TableConserved : (Handle → Option HostIngressSession) → Gateway → Type 0
  TableConserved table g = (h : Handle) → EntryConserved g h (table h)

  abbrev OpenEntry : List Handle → Gateway → Handle → Option HostIngressSession → Type 0
  OpenEntry closed g h none = Unit {0}
  OpenEntry closed g h (some s) =
      (has_handle h closed ≡ true) ⊎ Conserved sessions buffer_limits h g s

  abbrev OpenTable : Round sessions → Type 0
  OpenTable r = (h : Handle) → OpenEntry r.closed r.gateway h (r.table h)

has_handle-closed :
    (k h : Handle) (b : Bool) (closed : List Handle)
    → has_handle k closed ≡ true
    → has_handle k (if b then h ∷ closed else closed) ≡ true
has_handle-closed k h false closed e = e
has_handle-closed k h true closed e = or_right (k == h) (has_handle k closed) e
  where
    or_right : (a b : Bool) → b ≡ true → (a || b) ≡ true
    or_right true b e = refl
    or_right false b e = e

has_handle_self : (h : Handle) (closed : List Handle) → has_handle h (h ∷ closed) ≡ true
has_handle_self h closed = ap (λ b. b || has_handle h closed) ((==_iff h h).1 refl)

module _ (sessions : SessionGateway) (laws : SessionGatewayLaws sessions)
    (buffer_limits : HostIngressBufferLimits) where
  open sessions use {Gateway, connect, sent, got}
  open laws use {connect-Connects}

  Conserved-moves :
      (h : Handle) (g g' : Gateway) (s : HostIngressSession)
      → (sent h g' ≡ sent h g) × (got h g' ≡ got h g)
      → Conserved sessions buffer_limits h g s
      → Conserved sessions buffer_limits h g' s
  Conserved-moves h g g' s m ((a, b), (c, d)) =
      ((ap (λ t. t ++ s.pending_guest_write) m.0 ∙ a, b), (c ∙ sym m.1, d))

  OpenEntry-Others :
      (h k : Handle) (closed : List Handle) (b : Bool) (g g' : Gateway)
      (o : Option HostIngressSession)
      → Others sessions h g g'
      → k ≢ h
      → OpenEntry sessions buffer_limits closed g k o
      → OpenEntry sessions buffer_limits (if b then h ∷ closed else closed) g' k o
  OpenEntry-Others h k closed b g g' none x n e = tt
  OpenEntry-Others h k closed b g g' (some s) x n (inl c) = inl (has_handle-closed k h b closed c)
  OpenEntry-Others h k closed b g g' (some s) x n (inr c) = inr (Conserved-moves k g g' s (x k n) c)

  -- The entry of the session that is pumped.
  OpenEntry-Flow :
      (h : Handle) (closed : List Handle) (before : Gateway) (s : HostIngressSession)
      (p : Pump sessions)
      → (Conserved sessions buffer_limits h before s → Flow sessions buffer_limits h p)
      → OpenEntry sessions buffer_limits closed before h (some s)
      → OpenEntry sessions buffer_limits
          (if p.removed then h ∷ closed else closed)
          p.gateway
          h
          (some p.session)
  OpenEntry-Flow h closed before s p f (inl c) = inl (has_handle-closed h h p.removed closed c)
  OpenEntry-Flow h closed before s p f (inr c) = elim (f c) [
    | inl e ↦ inl (rw e (has_handle_self h closed))
    | inr d ↦ inr d
  ]

  module _ (pump_limits : HostIngressPumpLimits)
      (hg : buffer_limits.pending_guest_write < usize_max)
      (hh : buffer_limits.pending_host_write < usize_max) where
    process_loop-OpenTable :
        (ready : HostIngressReadiness) (active : List (Handle × State)) (r : Round sessions)
        → OpenTable sessions buffer_limits r
        → OpenTable sessions buffer_limits
            (process_loop sessions buffer_limits pump_limits ready active r)
    unfolding process_loop
    process_loop-OpenTable ready [] r t = t
    process_loop-OpenTable ready ((h, st) ∷ active) r t = elim (Option-cases (r.table h)) [
      | inl e ↦ rw (process_loop, e) (process_loop-OpenTable ready active r t)
      | inr (s, e) ↦
          let start : Pump sessions = record {
            gateway = r.gateway;
            session = s;
            events = r.events;
            removed = false;
          } in
          let p =
            pump_session sessions buffer_limits pump_limits h st (is_readable ready h)
              (is_writable ready h) start in
          let own =
            OpenEntry-Flow h r.closed r.gateway s p
              (λ c.
                pump_session-Flow sessions laws buffer_limits pump_limits h hg hh st
                  (is_readable ready h) (is_writable ready h) start (inr c))
              (rw e at (t h)) in
          let others =
            pump_session-Others sessions laws buffer_limits pump_limits h st (is_readable ready h)
              (is_writable ready h) start in
          rw (process_loop, e)
            (process_loop-OpenTable ready active
              (record {
                table = insert_session h p.session r.table;
                gateway = p.gateway;
                events = p.events;
                closed = if p.removed then h ∷ r.closed else r.closed;
              })
              (λ k. elim (Bool-cases (k == h)) [
                | inl q ↦ rw q (
                    subst
                      (λ x.
                        OpenEntry sessions buffer_limits
                          (if p.removed then h ∷ r.closed else r.closed) p.gateway x
                          (some p.session))
                      (sym ((==_iff k h).0 q)) own)
                | inr q ↦ rw q (
                    OpenEntry-Others h k r.closed p.removed r.gateway p.gateway (r.table k) others
                      (λ x. absurd (ground arith)) (t k))
              ]))
    ]

module _ (sessions : SessionGateway) (laws : SessionGatewayLaws sessions) where
  open sessions use {Gateway, connect, sent, got}
  open laws use {connect-Connects}

  -- For buffer limits below 2^64 - 1, a gateway that keeps account of what each of its sessions takes
  -- and gives, and any list of active sessions, readiness, reads and writes: if in every session of
  -- the table and in each direction what has arrived followed by what is pending is what was given,
  -- with the pending bytes within their limit, then the same holds of the table and the gateway
  -- after one round.
  pub process_gateway_with_readiness-TableConserved :
      (active : List (Handle × State)) (ready : HostIngressReadiness) (bridge : HostIngressBridge)
      (g : Gateway)
      → bridge.buffer_limits.pending_guest_write < usize_max
      → bridge.buffer_limits.pending_host_write < usize_max
      → TableConserved sessions bridge.buffer_limits bridge.sessions g
      → let r = process_gateway_with_readiness sessions active ready bridge g in
        TableConserved sessions bridge.buffer_limits r.1.0.sessions r.1.1
  unfolding process_gateway_with_readiness
  process_gateway_with_readiness-TableConserved active ready bridge g hg hh t =
      let limits = bridge.buffer_limits in
      let before : Round sessions = record {
        table = bridge.sessions;
        gateway = g;
        events = [];
        closed = [];
      } in
      let after = process_loop sessions limits bridge.pump_limits ready active before in
      let kept =
        process_loop-OpenTable sessions laws limits bridge.pump_limits hg hh ready active before
          (λ h. opened limits g h (bridge.sessions h) (t h)) in
      λ k. elim (Bool-cases (has_handle k after.closed)) [
        | inl e ↦ rw e tt
        | inr e ↦ rw e (settled limits after.closed after.gateway k (after.table k) e (kept k))
      ]
    where
      opened :
          (limits : HostIngressBufferLimits) (g : Gateway) (h : Handle)
          (o : Option HostIngressSession)
          → EntryConserved sessions limits g h o
          → OpenEntry sessions limits [] g h o
      opened limits g h none c = tt
      opened limits g h (some s) c = inr c

      settled :
          (limits : HostIngressBufferLimits) (closed : List Handle) (g : Gateway) (h : Handle)
          (o : Option HostIngressSession)
          → has_handle h closed ≡ false
          → OpenEntry sessions limits closed g h o
          → EntryConserved sessions limits g h o
      settled limits closed g h none e c = tt
      settled limits closed g h (some s) e (inr c) = c
      settled limits closed g h (some s) e (inl c) = absurd (ground arith)

  pub EntryConserved-moves :
      (limits : HostIngressBufferLimits) (g g' : Gateway) (h : Handle)
      (o : Option HostIngressSession)
      → (sent h g' ≡ sent h g) × (got h g' ≡ got h g)
      → EntryConserved sessions limits g h o
      → EntryConserved sessions limits g' h o
  EntryConserved-moves limits g g' h none m c = tt
  EntryConserved-moves limits g g' h (some s) m c =
      Conserved-moves sessions laws limits h g g' s m c

  -- For a connection that has given and taken nothing yet: if the sessions of the table have what was
  -- given to them, they and the new session have it after open_session, and at an error, which
  -- opens none.
  pub open_session-TableConserved :
      (guest_port : ℕ) (connection : HostConnection) (bridge : HostIngressBridge) (g : Gateway)
      → connection.given ≡ []
      → connection.writes.taken ≡ []
      → TableConserved sessions bridge.buffer_limits bridge.sessions g
      → let r = open_session sessions guest_port connection bridge g in
        TableConserved sessions bridge.buffer_limits r.1.0.sessions r.1.1
  unfolding open_session
  open_session-TableConserved guest_port connection bridge g eg ew t =
      let limits = bridge.buffer_limits in
      let local_port = (allocate_local_port bridge.next_local_port).0 in
      let g' = (connect guest_port local_port g).1 in
      let c = connect-Connects guest_port local_port g in
      elim (⊎-cases (connect guest_port local_port g).0) [
        | inl (e, q) ↦
            rw (open_session, q)
              (λ k. EntryConserved-moves limits g g' k (bridge.sessions k) ((rw q at c) k) (t k))
        | inr ((handle, frames), q) ↦
            let (s, (o, n)) = rw q at c in
            rw (open_session, q)
              (λ k. elim (Bool-cases (k == handle)) [
                | inr d ↦ rw d (
                    EntryConserved-moves limits g g' k (bridge.sessions k)
                      (n k (λ x. absurd (ground arith))) (t k))
                | inl d ↦
                    let same = (==_iff k handle).0 d in
                    rw d (
                      (append-nil (sent k g') ∙ ap (λ x. sent x g') same ∙ s ∙ sym eg, omega arith),
                      (
                        append-nil connection.writes.taken ∙ ew ∙ sym (ap (λ x. got x g') same ∙ o),
                        omega arith,
                      ),
                    )
              ])
      ]
