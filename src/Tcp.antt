-- ===== src/Tcp.antt =====
-- vm-frontend/src/tcp_gateway.rs: what the gateway does with a TCP destination. A call of a
-- connector changes a state `World`, which stands for the sockets of the host.
pub mod Rules
pub mod Tests
use wrapper.Common.{
  ℕ, ◌≡◌, Bool, true, false, not, ◌&&◌, ◌||◌, Option, none, some, List, [], ◌∷◌, Bytes, String,
  ◌==◌, if◌then◌else◌, is_some,
}
use wrapper.Policy.{
  EgressAction, deny, allow_public_internet, Ipv4Addr, Ipv4Range, Nets, VmnetPolicy,
}
use wrapper.Dns.Domain.{domain_allowed}

pub record TcpDestination : Type 0 where
  pub ip : Ipv4Addr
  pub port : ℕ
  pub domain : Option Bytes

pub data TcpAction : Type 0 where
  refuse connect intercept_http intercept_https : TcpAction

pub record TcpDecision : Type 0 where
  pub action : TcpAction
  pub reason : String

pub data TcpConnectError : Type 0 where
  policy_denied : TcpDecision → TcpConnectError
  upstream_unavailable : TcpConnectError

pub data Connected {ℓ} (A : Type ℓ) : Type ℓ where
  ok : A → Connected A
  err : TcpConnectError → Connected A

-- The trait `TcpUpstreamConnector`.
abbrev pub Connector {ℓ} : (World Connection : Type ℓ) → Type ℓ
Connector World Connection = TcpDestination → World → Connected Connection × World

abbrev pub https_mitm_configured {ℓ} : {Net : Type ℓ} → VmnetPolicy Net → Bool
https_mitm_configured policy =
    is_some policy.tls_mitm.ca_cert_path
    && (is_some policy.tls_mitm.ca_key_path && policy.tls_mitm.generate_per_host_certs)

module _ (nets : Nets) where
  open nets use {Net, has}

  unfoldable pub ip_in_ranges : Ipv4Addr → List (Ipv4Range Net) → Bool
  ip_in_ranges ip [] = false
  ip_in_ranges ip (range ∷ ranges) = has range.net ip || ip_in_ranges ip ranges

  abbrev pub domain_is_allowed : VmnetPolicy Net → Option Bytes → Bool
  domain_is_allowed policy none = false
  domain_is_allowed policy (some domain) = domain_allowed policy domain

  unfoldable pub tcp_destination_allowed : VmnetPolicy Net → TcpDestination → Bool
  tcp_destination_allowed policy destination = elim policy.egress.default_action [
    | allow_public_internet ↦ true
    | deny ↦
        domain_is_allowed policy destination.domain
        || ip_in_ranges destination.ip policy.egress.allow_ip_ranges
  ]

  unfoldable pub evaluate_tcp_destination : VmnetPolicy Net → TcpDestination → TcpDecision
  evaluate_tcp_destination policy destination =
      if ip_in_ranges destination.ip policy.egress.deny_ip_ranges
      then record { action = refuse; reason = "destination is in a denied range" }
      else if not (tcp_destination_allowed policy destination)
      then record { action = refuse; reason = "destination denied by egress policy" }
      else if (destination.port == 80) && policy.protocols.tcp.intercept_http_port_80
      then record { action = intercept_http; reason = "HTTP interception enabled" }
      else if (destination.port == 443) && policy.protocols.tcp.intercept_https_port_443
      then (if not (https_mitm_configured policy)
          then record {
            action = refuse;
            reason =
                "HTTPS MITM requires configured CA cert/key and per-host certificate generation";
          }
          else record { action = intercept_https; reason = "HTTPS interception enabled" })
      else record { action = connect; reason = "generic TCP connect allowed" }

  module _ {ℓ} {World Connection : Type ℓ} (connector : Connector World Connection) where
    abbrev pub with_decision :
        TcpDecision → Connected Connection → Connected (TcpDecision × Connection)
    with_decision decision (ok connection) = ok (decision, connection)
    with_decision decision (err e) = err e

    abbrev pub connect_decided :
        TcpDecision → TcpDestination → World → Connected (TcpDecision × Connection) × World
    connect_decided decision destination w = elim decision.action [
      | refuse ↦ (err (policy_denied decision), w)
      | _ ↦ let (r, w') = connector destination w in (with_decision decision r, w')
    ]

    unfoldable pub connect_if_allowed :
        VmnetPolicy Net → TcpDestination → World → Connected (TcpDecision × Connection) × World
    connect_if_allowed policy destination w =
        connect_decided (evaluate_tcp_destination policy destination) destination w

pub record UpstreamMapping : Type 0 where
  pub guest_ip : Ipv4Addr
  pub guest_port : ℕ
  pub host_ip : Ipv4Addr
  pub host_port : ℕ

-- The calls of `connect_timeout` and of the two socket options; a failure of any is the error.
pub record Sockets {ℓ} (World Connection : Type ℓ) : Type ℓ where
  pub connect_timeout : Ipv4Addr → ℕ → World → Option Connection × World
  pub set_nonblocking : Connection → World → Bool × World
  pub set_nodelay : Connection → World → Bool × World

module _ {ℓ} {World Connection : Type ℓ} (sockets : Sockets World Connection) where
  open sockets use {connect_timeout, set_nonblocking, set_nodelay}

  abbrev pub connect_socket_addr : Ipv4Addr → ℕ → World → Connected Connection × World
  connect_socket_addr ip port w =
      let (r, w1) = connect_timeout ip port w in
      elim r [
        | none ↦ (err upstream_unavailable, w1)
        | some stream ↦
            let (b, w2) = set_nonblocking stream w1 in
            if b
            then (let (c, w3) = set_nodelay stream w2 in
                ((if c then ok stream else err upstream_unavailable), w3))
            else (err upstream_unavailable, w2)
      ]

  abbrev pub find_mapping : List UpstreamMapping → TcpDestination → Option UpstreamMapping
  find_mapping [] destination = none
  find_mapping (m ∷ ms) destination =
      let rest = find_mapping ms destination in
      if (m.guest_ip == destination.ip) && (m.guest_port == destination.port) then some m else rest

  -- `MappedTcpConnector::connect`.
  unfoldable pub mapped_connect : List UpstreamMapping → Connector World Connection
  mapped_connect mappings destination w = elim (find_mapping mappings destination) [
    | some m ↦ connect_socket_addr m.host_ip m.host_port w
    | none ↦ connect_socket_addr destination.ip destination.port w
  ]
