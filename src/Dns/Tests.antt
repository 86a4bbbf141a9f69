-- ===== src/Dns/Tests.antt =====
-- Concrete queries for vm-frontend/src/dns_proxy.rs. A message is its list of names, and the bytes of
-- a message are twelve bytes of header and one name.
use wrapper.Common.{
  ℕ, ◌+◌, ◌≡◌, refl, Bool, true, false, Option, none, some, List, [], ◌∷◌, ◌++◌, map, Bytes, drop,
  ◌↔◌,
}
use wrapper.Network.{default_network}
use wrapper.Policy.{VmnetPolicy, default_protocols, deny, deny_by_default}
use wrapper.Dns.{
  Messages, message, DnsForwardRequest, DnsProxyPlan, forward, plan_udp_payload, Exchange, replied,
  handle_udp_payload,
}
use wrapper.Dns.Domain.{normalise, domain_matches, domain_allowed, to_lower}
use wrapper.Dns.Domains.{Names, domain_matches_iff}
use wrapper.Dns.Proxy.{Admitted, plan_udp_payload_iff, Handled, handle_udp_payload-Handled}

abbrev names : Messages
names = record {
  Message = List Bytes;
  Metadata = Unit {0};
  Query = Bytes;
  from_vec = λ payload. message (drop 12 payload ∷ []);
  to_vec = λ query. none;
  queries = λ query. query;
  metadata = λ query. tt;
  name_ascii = λ q. q;
  new_response = λ m. [];
  response_from_request = λ m. m;
  with_response_code = λ c m. m;
  with_recursion_available = λ m. m;
  with_metadata = λ m response. response;
  add_queries = λ qs response. response ++ qs;
  show_error = λ e. "error";
}

-- "*.a.b".
abbrev pattern_ab : Bytes
pattern_ab = b'*' ∷ b'.' ∷ b'a' ∷ b'.' ∷ b'b' ∷ []

-- "X.A.b.".
abbrev name_xab : Bytes
name_xab = b'X' ∷ b'.' ∷ b'A' ∷ b'.' ∷ b'b' ∷ b'.' ∷ []

abbrev allow_ab : VmnetPolicy ℕ
allow_ab = record {
  assignment = default_network;
  mtu = 1500;
  egress = record {
    default_action = deny;
    reason = deny_by_default;
    allow_domains = pattern_ab ∷ [];
    allow_ip_ranges = [];
    deny_ip_ranges = [];
  };
  protocols = default_protocols;
  host_listeners = [];
  capture = record { pcap_path = none; capture_guest_side_frames = false };
  tls_mitm = record { ca_cert_path = none; ca_key_path = none; generate_per_host_certs = false };
}

abbrev payload_xab : Bytes
payload_xab = 0 ∷ 1 ∷ 1 ∷ 0 ∷ 0 ∷ 1 ∷ 0 ∷ 0 ∷ 0 ∷ 0 ∷ 0 ∷ 0 ∷ name_xab

abbrev request_xab : DnsForwardRequest names
request_xab = record { query = name_xab ∷ []; domain = b'x' ∷ b'.' ∷ b'a' ∷ b'.' ∷ b'b' ∷ [] }

-- An upstream that counts its exchanges and echoes the query.
abbrev echo : List Bytes → ℕ → Exchange names × ℕ
echo query n = (replied query, n + 1)

domain_matches_iff_example :
    (domain_matches pattern_ab name_xab ≡ true) ↔ Names (normalise pattern_ab) (normalise name_xab)
domain_matches_iff_example = domain_matches_iff pattern_ab name_xab

plan_udp_payload_iff_example :
    (plan_udp_payload names allow_ab payload_xab ≡ forward request_xab)
    ↔ Admitted names allow_ab payload_xab request_xab
plan_udp_payload_iff_example = plan_udp_payload_iff names allow_ab payload_xab request_xab

handle_udp_payload-Handled_example :
    Handled names allow_ab echo payload_xab 0 (handle_udp_payload names allow_ab echo payload_xab 0)
handle_udp_payload-Handled_example = handle_udp_payload-Handled names allow_ab echo payload_xab 0

-- The query is forwarded.
plan_xab : plan_udp_payload names allow_ab payload_xab ≡ forward request_xab
unfolding plan_udp_payload wrapper.Dns.payload_has_answer_or_authority_records domain_allowed
    domain_matches normalise wrapper.Dns.Domain.matches_normal wrapper.Common.bytes_eq
plan_xab = refl
