-- ===== src/Tcp/Tests.antt =====
-- Concrete destinations for vm-frontend/src/tcp_gateway.rs. The networks are those of 24 bits, each
-- by the number of its address over 256.
use wrapper.Common.{ℕ, ◌+◌, ◌/◌, ◌≡◌, refl, false, none, List, [], ◌∷◌, ◌==◌}
use wrapper.Network.{default_network}
use wrapper.Policy.{
  Ipv4Range, Nets, VmnetPolicy, PublishedPort, default_sandbox, from_cli, ok, allow_ip_or_cidr,
}
use wrapper.Tcp.{
  TcpDestination, TcpAction, refuse, Connected, Connector, evaluate_tcp_destination,
  connect_if_allowed,
}
use wrapper.Tcp.Rules.{Grounds, evaluate_tcp_destination-Grounds}

abbrev nets24 : Nets
nets24 = record {
  Net = ℕ;
  parse_net = λ text. none;
  parse_addr = λ text. none;
  host_net = λ ip. ip / 256;
  has = λ net ip. ip / 256 == net;
}

abbrev denied : List (Ipv4Range ℕ)
denied = record { net = 10 } ∷ record { net = 20 } ∷ []

abbrev sandbox : VmnetPolicy ℕ
sandbox = record {
  assignment = default_network;
  mtu = 1500;
  egress = record {
    default_action = wrapper.Policy.deny;
    reason = wrapper.Policy.deny_by_default;
    allow_domains = [];
    allow_ip_ranges = record { net = 30 } ∷ record { net = 20 } ∷ [];
    deny_ip_ranges = denied;
  };
  protocols = wrapper.Policy.default_protocols;
  host_listeners = [];
  capture = record { pcap_path = none; capture_guest_side_frames = false };
  tls_mitm = record { ca_cert_path = none; ca_key_path = none; generate_per_host_certs = false };
}

-- An address of the network 30, which is allowed, and one of 20, which is denied as well.
abbrev web : TcpDestination
web = record { ip = 7681; port = 80; domain = none }

abbrev blocked : TcpDestination
blocked = record { ip = 5121; port = 22; domain = none }

-- A connector that counts its calls.
abbrev counting : Connector ℕ ℕ
counting d n = (wrapper.Tcp.ok d.port, n + 1)

evaluate_tcp_destination-Grounds_example :
    Grounds nets24 sandbox web (evaluate_tcp_destination nets24 sandbox web).action
evaluate_tcp_destination-Grounds_example = evaluate_tcp_destination-Grounds nets24 sandbox web

abbrev cli_policy : VmnetPolicy ℕ
cli_policy = record sandbox {
  egress = record {
    default_action = wrapper.Policy.deny;
    reason = wrapper.Policy.deny_by_default;
    allow_domains = [];
    allow_ip_ranges = [];
    deny_ip_ranges = denied;
  };
}

cli_policy_lem : from_cli nets24 denied default_network false [] ≡ ok cli_policy
unfolding from_cli default_sandbox
cli_policy_lem = refl

-- The permitted destination is intercepted, with one call of the connector.
web_calls : (connect_if_allowed nets24 counting sandbox web 0).1 ≡ 1
unfolding connect_if_allowed evaluate_tcp_destination wrapper.Tcp.tcp_destination_allowed
    wrapper.Tcp.ip_in_ranges
web_calls = refl
