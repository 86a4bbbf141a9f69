-- ===== src/Tcp/Rules.antt =====
-- What is refused, connected or intercepted by vm-frontend/src/tcp_gateway.rs, and that a refused
-- destination never reaches a connector.
use wrapper.Common.{
  ◌≢◌, ◌≡◌, refl, subst, Bool, true, false, ◌&&◌, ◌==◌, Option, some, none, List, [], ◌∷◌, ◌++◌,
  Bytes, ◌⊎◌, inl, inr, Bool-cases, arith, length,
}
use wrapper.Network.{GuestNetwork}
use wrapper.Policy.{
  deny, Ipv4Addr, Ipv4Range, Nets, VmnetPolicy, PublishedPort, default_sandbox, from_cli, Checked,
  ok,
}
use wrapper.Dns.Domain.{domain_allowed}
use wrapper.Tcp.{
  domain_is_allowed, TcpDestination, TcpAction, refuse, connect, intercept_http, intercept_https,
  TcpDecision, policy_denied, Connected, err, Connector, https_mitm_configured, ip_in_ranges,
  tcp_destination_allowed, evaluate_tcp_destination, with_decision, connect_if_allowed,
  connect_decided,
}

module _ (nets : Nets) where
  open nets use {Net, has}

  -- The egress policy admits the destination.
  abbrev pub Admitted : VmnetPolicy Net → TcpDestination → Type 0
  Admitted policy d =
      (ip_in_ranges nets d.ip policy.egress.deny_ip_ranges ≡ false)
      × (tcp_destination_allowed nets policy d ≡ true)

  abbrev pub intercepts_http : VmnetPolicy Net → TcpDestination → Bool
  intercepts_http policy d = (d.port == 80) && policy.protocols.tcp.intercept_http_port_80

  abbrev pub intercepts_https : VmnetPolicy Net → TcpDestination → Bool
  intercepts_https policy d = (d.port == 443) && policy.protocols.tcp.intercept_https_port_443

  -- The condition under which each action is taken.
  abbrev pub Grounds : VmnetPolicy Net → TcpDestination → TcpAction → Type 0
  Grounds policy d refuse =
      (ip_in_ranges nets d.ip policy.egress.deny_ip_ranges ≡ true)
      ⊎ ((tcp_destination_allowed nets policy d ≡ false)
          ⊎ ((intercepts_https policy d ≡ true) × (https_mitm_configured policy ≡ false)))
  Grounds policy d intercept_http = Admitted policy d × (intercepts_http policy d ≡ true)
  Grounds policy d intercept_https =
      Admitted policy d
      × ((intercepts_https policy d ≡ true) × (https_mitm_configured policy ≡ true))
  Grounds policy d connect =
      Admitted policy d × ((intercepts_http policy d ≡ false) × (intercepts_https policy d ≡ false))

  -- The action for a destination is taken on its grounds: a connection without interception only if
  -- the egress policy admits the destination and neither port is intercepted, an interception of
  -- HTTPS only with the CA certificate and key, and a refusal only where a rule asks for it.
  pub evaluate_tcp_destination-Grounds :
      (policy : VmnetPolicy Net) (d : TcpDestination)
      → Grounds policy d (evaluate_tcp_destination nets policy d).action
  unfolding evaluate_tcp_destination
  evaluate_tcp_destination-Grounds policy d =
      elim (Bool-cases (ip_in_ranges nets d.ip policy.egress.deny_ip_ranges)) [
        | inl r ↦ rw r (inl r)
        | inr r ↦ elim (Bool-cases (tcp_destination_allowed nets policy d)) [
          | inr a ↦ rw (r, a) (inr (inl a))
          | inl a ↦ elim (Bool-cases (intercepts_http policy d)) [
            | inl i ↦ rw (r, a, i) ((r, a), i)
            | inr i ↦ elim (Bool-cases (intercepts_https policy d)) [
              | inr j ↦ rw (r, a, i, j) ((r, a), (i, j))
              | inl j ↦ elim (Bool-cases (https_mitm_configured policy)) [
                | inl m ↦ rw (r, a, i, j, m) ((r, a), (j, m))
                | inr m ↦ rw (r, a, i, j, m) (inr (inr (j, m)))
              ]
            ]
          ]
        ]
      ]

  module _ {ℓ} {World Connection : Type ℓ} (connector : Connector World Connection) where
    -- A destination whose evaluation is a refusal gets the decision as its error, and the connector
    -- is not called: its state is unchanged. Any other is connected by one call of it.
    abbrev pub Gated :
        TcpDecision → TcpDestination → World → Connected (TcpDecision × Connection) × World → Type ℓ
    Gated decision d w (result, after) =
        ((decision.action ≡ refuse) × ((result ≡ err (policy_denied decision)) × (after ≡ w)))
        ⊎ ((decision.action ≢ refuse)
            × ((result ≡ with_decision nets connector decision (connector d w).0)
                × (after ≡ (connector d w).1)))

    connect_decided_by :
        (decision : TcpDecision) (d : TcpDestination) (w : World) (a : TcpAction)
        → decision.action ≡ a
        → Gated decision d w (connect_decided nets connector decision d w)
    connect_decided_by decision d w refuse e = rw e (inl (refl, (refl, refl)))
    connect_decided_by decision d w connect e = rw e (inr ((λ k. ground arith), (refl, refl)))
    connect_decided_by decision d w intercept_http e =
        rw e (inr ((λ k. ground arith), (refl, refl)))
    connect_decided_by decision d w intercept_https e =
        rw e (inr ((λ k. ground arith), (refl, refl)))

    -- connect_if_allowed follows the evaluation of the destination.
    pub connect_if_allowed-Gated :
        (policy : VmnetPolicy Net) (d : TcpDestination) (w : World)
        → Gated
            (evaluate_tcp_destination nets policy d)
            d
            w
            (connect_if_allowed nets connector policy d w)
    unfolding connect_if_allowed
    connect_if_allowed-Gated policy d w =
        connect_decided_by (evaluate_tcp_destination nets policy d) d w _ refl

    ip_in_ranges-split :
        (ip : Ipv4Addr) (xs ys : List (Ipv4Range Net)) (r : Ipv4Range Net)
        → has r.net ip ≡ true
        → ip_in_ranges nets ip (xs ++ r ∷ ys) ≡ true
    unfolding ip_in_ranges
    ip_in_ranges-split ip [] ys r h = rw h refl
    ip_in_ranges-split ip (x ∷ xs) ys r h = ground (arith, ip_in_ranges-split ip xs ys r h)

    -- A destination in a denied range is refused without a call of the connector, whatever the rest
    -- of the policy allows.
    pub connect_if_allowed_denied :
        (policy : VmnetPolicy Net) (d : TcpDestination) (w : World) (xs ys : List (Ipv4Range Net))
        (r : Ipv4Range Net)
        → policy.egress.deny_ip_ranges ≡ xs ++ r ∷ ys
        → has r.net d.ip ≡ true
        → (connect_if_allowed nets connector policy d w).1 ≡ w
    unfolding connect_if_allowed evaluate_tcp_destination
    connect_if_allowed_denied policy d w xs ys r e h =
        rw (e, ip_in_ranges-split d.ip xs ys r h) refl

  -- Nothing is allowed by default, by name or by address.
  abbrev Closed : VmnetPolicy Net → Type 0
  Closed policy =
      (policy.egress.default_action ≡ deny)
      × ((policy.egress.allow_domains ≡ []) × (policy.egress.allow_ip_ranges ≡ []))

  domain_is_allowed-Closed :
      (policy : VmnetPolicy Net) (domain : Option Bytes)
      → Closed policy
      → domain_is_allowed nets policy domain ≡ false
  unfolding domain_allowed
  domain_is_allowed-Closed policy none k = refl
  domain_is_allowed-Closed policy (some domain) (a, (ds, _)) = rw (a, ds) refl

  tcp_destination_allowed-Closed :
      (policy : VmnetPolicy Net) (d : TcpDestination)
      → Closed policy
      → tcp_destination_allowed nets policy d ≡ false
  unfolding tcp_destination_allowed ip_in_ranges
  tcp_destination_allowed-Closed policy d k =
      let (a, (_, rs)) = k in
      let n = domain_is_allowed-Closed policy d.domain k in
      let r : ip_in_ranges nets d.ip policy.egress.allow_ip_ranges ≡ false = rw rs refl in
      ground arith

  evaluate_tcp_destination-Closed :
      (policy : VmnetPolicy Net) (d : TcpDestination)
      → Closed policy
      → (evaluate_tcp_destination nets policy d).action ≡ refuse
  unfolding evaluate_tcp_destination
  evaluate_tcp_destination-Closed policy d k =
      elim (Bool-cases (ip_in_ranges nets d.ip policy.egress.deny_ip_ranges)) [
        | inl r ↦ rw r refl
        | inr r ↦ rw (r, tcp_destination_allowed-Closed policy d k) refl
      ]

  abbrev ClosedIfOk : Checked (VmnetPolicy Net) → Type 0
  ClosedIfOk (ok policy) = Closed policy
  ClosedIfOk _ = Unit {0}

  from_cli-ClosedIfOk :
      (deny_ranges : List (Ipv4Range Net)) (assignment : GuestNetwork) (no_net : Bool)
      (ports : List PublishedPort)
      → ClosedIfOk (from_cli nets deny_ranges assignment no_net ports)
  unfolding from_cli default_sandbox
  from_cli-ClosedIfOk deny_ranges assignment true [] = (refl, (refl, refl))
  from_cli-ClosedIfOk deny_ranges assignment true (p ∷ ports) =
      let k : (length (p ∷ ports) == 0) ≡ false = ground arith in rw k tt
  from_cli-ClosedIfOk deny_ranges assignment false ports = (refl, (refl, refl))

  -- A policy that `VmnetPolicy::from_cli` makes, without the flags that allow destinations, refuses
  -- every destination.
  pub from_cli-evaluate_tcp_destination :
      (deny_ranges : List (Ipv4Range Net)) (assignment : GuestNetwork) (no_net : Bool)
      (ports : List PublishedPort) (policy : VmnetPolicy Net) (d : TcpDestination)
      → from_cli nets deny_ranges assignment no_net ports ≡ ok policy
      → (evaluate_tcp_destination nets policy d).action ≡ refuse
  from_cli-evaluate_tcp_destination deny_ranges assignment no_net ports policy d h =
      evaluate_tcp_destination-Closed policy d
        (subst ClosedIfOk h (from_cli-ClosedIfOk deny_ranges assignment no_net ports))
