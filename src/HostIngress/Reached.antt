-- ===== src/HostIngress/Reached.antt =====
-- What holds of the bridge of vm-frontend/src/host_ingress.rs after any sequence of its operations.
use wrapper.Common.{ℕ, ◌≡◌, refl, ◌∙◌, sym, subst, ap, List, [], arith, inl, inr, ⊎-cases}
use wrapper.GuestTcp.Sockets.{Handle, State}
use wrapper.HostIngress.{allocate_local_port, HostConnection, default_buffer_limits, SessionGateway}
use wrapper.HostIngress.Bridge.{
  HostIngressBridge, HostIngressReadiness, new_bridge, open_session, process_gateway_with_readiness,
}
use wrapper.HostIngress.Account.{SessionGatewayLaws, SameAccounts}
use wrapper.HostIngress.Table.{
  TableConserved, EntryConserved-moves, process_gateway_with_readiness-TableConserved,
  open_session-TableConserved,
}

module _ (sessions : SessionGateway) where
  open sessions use {Gateway}

  -- From a new bridge, by opening sessions on unused connections, by rounds, and by what else changes
  -- the gateway, which passes on no bytes of the sessions.
  pub data Reach : HostIngressBridge → Gateway → Type 0 where
    begun : (g : Gateway) → Reach new_bridge g
    opened :
        {bridge : HostIngressBridge} {g : Gateway} (guest_port : ℕ) (connection : HostConnection)
        → connection.given ≡ []
        → connection.writes.taken ≡ []
        → Reach bridge g
        → Reach
            (open_session sessions guest_port connection bridge g).1.0
            (open_session sessions guest_port connection bridge g).1.1
    pumped :
        {bridge : HostIngressBridge} {g : Gateway} (active : List (Handle × State))
        (ready : HostIngressReadiness)
        → Reach bridge g
        → Reach
            (process_gateway_with_readiness sessions active ready bridge g).1.0
            (process_gateway_with_readiness sessions active ready bridge g).1.1
    elsewhere :
        {bridge : HostIngressBridge} {g : Gateway} (g' : Gateway)
        → SameAccounts sessions g g'
        → Reach bridge g
        → Reach bridge g'

  module _ (laws : SessionGatewayLaws sessions) where
    open sessions use {connect}

    open_session_limits :
        (guest_port : ℕ) (connection : HostConnection) (bridge : HostIngressBridge) (g : Gateway)
        → (open_session sessions guest_port connection bridge g).1.0.buffer_limits
          ≡ bridge.buffer_limits
    unfolding open_session
    open_session_limits guest_port connection bridge g =
        elim (⊎-cases (connect guest_port (allocate_local_port bridge.next_local_port).0 g).0) [
          | inl (e, q) ↦ rw (open_session, q) refl
          | inr (x, q) ↦ rw (open_session, q) refl
        ]

    process_limits :
        (active : List (Handle × State)) (ready : HostIngressReadiness) (bridge : HostIngressBridge)
        (g : Gateway)
        → (process_gateway_with_readiness sessions active ready bridge g).1.0.buffer_limits
          ≡ bridge.buffer_limits
    unfolding process_gateway_with_readiness
    process_limits active ready bridge g = refl

    abbrev Held : HostIngressBridge → Gateway → Type 0
    Held bridge g =
        (bridge.buffer_limits ≡ default_buffer_limits)
        × TableConserved sessions bridge.buffer_limits bridge.sessions g

    Reach-Held : {bridge : HostIngressBridge} {g : Gateway} → Reach bridge g → Held bridge g
    Reach-Held (begun g) = (refl, λ h. tt)
    Reach-Held {bridge} (elsewhere {g} g' m r) =
        let (e, t) = Reach-Held r in
        (
          e,
          λ k.
              EntryConserved-moves sessions laws bridge.buffer_limits g g' k (bridge.sessions k)
                (m k) (t k),
        )
    Reach-Held (opened {bridge} {g} guest_port connection eg ew r) =
        let (e, t) = Reach-Held r in
        let l = open_session_limits guest_port connection bridge g in
        (
          l ∙ e,
          subst
              (λ x.
                TableConserved sessions x
                  (open_session sessions guest_port connection bridge g).1.0.sessions
                  (open_session sessions guest_port connection bridge g).1.1)
              (sym l)
              (open_session-TableConserved sessions laws guest_port connection bridge g eg ew t),
        )
    Reach-Held (pumped {bridge} {g} active ready r) =
        let (e, t) = Reach-Held r in
        let l = process_limits active ready bridge g in
        (
          l ∙ e,
          subst
              (λ x.
                TableConserved sessions x
                  (process_gateway_with_readiness sessions active ready bridge g).1.0.sessions
                  (process_gateway_with_readiness sessions active ready bridge g).1.1)
              (sym l)
              (process_gateway_with_readiness-TableConserved sessions laws active ready bridge g
                (omega (arith, ap (λ x. x.pending_guest_write) e))
                (omega (arith, ap (λ x. x.pending_host_write) e)) t),
        )

    -- For a gateway that keeps account of what each of its sessions takes and gives, and whatever the
    -- connections do: after any sequence of opened sessions and rounds from a new bridge, in every
    -- session of the table and in each direction, what has arrived followed by what is pending is
    -- what was given, and the pending bytes are within the default limit.
    pub Reach-TableConserved :
        {bridge : HostIngressBridge} {g : Gateway}
        → Reach bridge g
        → TableConserved sessions default_buffer_limits bridge.sessions g
    Reach-TableConserved {bridge} {g} r =
        subst (λ x. TableConserved sessions x bridge.sessions g) (Reach-Held r).0 (Reach-Held r).1
