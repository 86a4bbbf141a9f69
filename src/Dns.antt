-- ===== src/Dns.antt =====
-- vm-frontend/src/dns_proxy.rs: which DNS queries of the guest are forwarded, and what is answered
-- to the others. The hickory crate's messages are the parameter `Messages`.
pub mod Domain
pub mod Domains
pub mod Proxy
pub mod Tests
use wrapper.Common.{
  ℕ, ◌+◌, ◌*◌, ◌≡◌, Bool, true, false, not, ◌&&◌, ◌||◌, Option, none, some, List, [], ◌∷◌, ◌++◌,
  Bytes, String, length, ltb, ◌==◌, bytes_eq, from_be16, get_or, if◌then◌else◌,
}
use wrapper.Policy.{EgressAction, deny, allow_public_internet, VmnetPolicy}
use wrapper.L2.{Ipv4, octets}
use wrapper.L2.Address.{parse_ipv4, ok, err}
use Domain.{domain_allowed, normalise}

abbrev pub dns_port : ℕ
dns_port = 53

pub data ResponseCode : Type 0 where
  form_err refused serv_fail : ResponseCode

pub data DnsDecision : Type 0 where
  allowed blocked malformed upstream_failure : DnsDecision

pub data DnsUpstreamError : Type 0 where
  invalid_query unavailable invalid_response : DnsUpstreamError

pub record DnsLogEntry : Type 0 where
  pub domain : Option Bytes
  pub decision : DnsDecision
  pub detail : String

pub record DnsProxyResult : Type 0 where
  pub response : Option Bytes
  pub log : DnsLogEntry

-- What `parse_message` makes of a payload: a message, or an error text, which is that of the
-- parser or, where the parser panics, a text of its own.
pub data ParseOutcome {ℓ} (A : Type ℓ) : Type ℓ where
  message : A → ParseOutcome A
  invalid : String → ParseOutcome A
  panicked : ParseOutcome A

pub record Messages : Type 1 where
  pub Message : Type 0
  pub Metadata : Type 0
  pub Query : Type 0
  pub from_vec : Bytes → ParseOutcome Message
  pub to_vec : Message → Option Bytes
  pub queries : Message → List Query
  pub metadata : Message → Metadata
  -- `query.name().to_ascii()`.
  pub name_ascii : Query → Bytes
  -- `Message::new` of a response with the id and the operation code of the request's metadata.
  pub new_response : Metadata → Message
  pub response_from_request : Metadata → Metadata
  pub with_response_code : ResponseCode → Metadata → Metadata
  pub with_recursion_available : Metadata → Metadata
  pub with_metadata : Metadata → Message → Message
  pub add_queries : List Query → Message → Message
  -- `{error:?}`.
  pub show_error : DnsUpstreamError → String

-- `dns_allowed_to_destination`.
unfoldable pub dns_allowed_to_destination {ℓ} : {Net : Type ℓ} → VmnetPolicy Net → Ipv4 → ℕ → Bool
dns_allowed_to_destination policy dst_ip dst_port =
    policy.protocols.udp.allow_dns_to_gateway
    && (dst_port == dns_port && (elim (parse_ipv4 policy.assignment.dns_ip) [
      | ok dns_ip ↦ bytes_eq (octets dns_ip) (octets dst_ip)
      | err e ↦ false
    ]))

-- The counts of the answer and authority records in the header.
unfoldable pub payload_has_answer_or_authority_records : Bytes → Bool
payload_has_answer_or_authority_records payload =
    if ltb (length payload) 12
    then false
    else not (from_be16 (get_or payload 6 0) (get_or payload 7 0) == 0)
      || not (from_be16 (get_or payload 8 0) (get_or payload 9 0) == 0)

module _ (messages : Messages) where
  open messages use {
    Message, Metadata, Query, from_vec, to_vec, queries, metadata, name_ascii, new_response,
    response_from_request, with_response_code, with_recursion_available, with_metadata, add_queries,
    show_error,
  }

  pub record DnsForwardRequest : Type 0 where
    pub query : Message
    pub domain : Bytes

  pub data DnsProxyPlan : Type 0 where
    immediate : DnsProxyResult → DnsProxyPlan
    forward : DnsForwardRequest → DnsProxyPlan

  abbrev pub domain_of : List Query → Option Bytes
  domain_of [] = none
  domain_of (q ∷ []) = some (normalise (name_ascii q))
  domain_of (q ∷ r ∷ qs) = none

  -- `query_domain`.
  abbrev pub query_domain : Message → Option Bytes
  query_domain query = domain_of (queries query)

  abbrev pub error_response : Message → ResponseCode → Message
  error_response query code =
      let response = new_response (metadata query) in
      let response' =
        with_metadata
          (with_recursion_available
            (with_response_code code (response_from_request (metadata query))))
          response in
      add_queries (queries query) response'

  abbrev pub malformed_result : String → DnsProxyPlan
  malformed_result detail = immediate (record {
    response = none;
    log = record { domain = none; decision = malformed; detail = detail };
  })

  module _ {ℓ} {Net : Type ℓ} (policy : VmnetPolicy Net) where
    -- What follows the parse of a query.
    abbrev pub plan_query : Message → Option Bytes → DnsProxyPlan
    plan_query query none = immediate (record {
      response = to_vec (error_response query form_err);
      log = record {
        domain = none;
        decision = malformed;
        detail = "expected exactly one DNS question";
      };
    })
    plan_query query (some domain) =
        if not (domain_allowed policy domain)
        then immediate (record {
          response = to_vec (error_response query refused);
          log = record {
            domain = some domain;
            decision = blocked;
            detail = "domain denied by VmnetPolicy";
          };
        })
        else forward (record { query = query; domain = domain })

    unfoldable pub plan_udp_payload : Bytes → DnsProxyPlan
    plan_udp_payload payload =
        if payload_has_answer_or_authority_records payload
        then malformed_result "DNS query payload must not contain answer or authority records"
        else elim (from_vec payload) [
          | message query ↦ plan_query query (query_domain query)
          | invalid e ↦ malformed_result e
          | panicked ↦ malformed_result "DNS parser panicked on malformed payload"
        ]

  pub data Exchange : Type 0 where
    replied : Message → Exchange
    failed : DnsUpstreamError → Exchange

  unfoldable pub complete_forward : DnsForwardRequest → Exchange → DnsProxyResult
  complete_forward request (replied response) = record {
    response = to_vec response;
    log = record {
      domain = some request.domain;
      decision = allowed;
      detail = "forwarded to upstream";
    };
  }
  complete_forward request (failed e) = record {
    response = to_vec (error_response request.query serv_fail);
    log = record {
      domain = some request.domain;
      decision = upstream_failure;
      detail = show_error e;
    };
  }

  module _ {ℓ} {Net Upstream : Type ℓ} (policy : VmnetPolicy Net)
      (exchange : Message → Upstream → Exchange × Upstream) where
    -- `handle_udp_payload`, with the state of the upstream after the call.
    unfoldable pub handle_udp_payload : Bytes → Upstream → DnsProxyResult × Upstream
    unfolding plan_udp_payload complete_forward
    handle_udp_payload payload u = elim (plan_udp_payload policy payload) [
      | immediate result ↦ (result, u)
      | forward request ↦ let (e, u') = exchange request.query u in (complete_forward request e, u')
    ]
