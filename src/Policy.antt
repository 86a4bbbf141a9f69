-- ===== src/Policy.antt =====
-- vm-frontend/src/network_policy.rs: the policy that decides on the guest's traffic. The networks
-- of the ipnet crate are a type `Net` with its functions; texts that the program only stores are
-- native strings, texts that it inspects are their UTF-8 bytes.
use wrapper.Common.{
  ℕ, Bool, true, false, not, ◌&&◌, Option, none, some, List, [], ◌∷◌, ◌++◌, map, Bytes, String,
  length, ◌==◌, if◌then◌else◌,
}
use wrapper.Network.{GuestNetwork}

pub data EgressAction : Type 0 where
  deny allow_public_internet : EgressAction

pub data EgressReason : Type 0 where
  deny_by_default no_net_flag explicit_allow_profile : EgressReason

pub data UnsupportedPolicy : Type 0 where
  deny_and_log : UnsupportedPolicy

-- An IPv4 address as the number of its 32 bits.
abbrev pub Ipv4Addr : Type 0
Ipv4Addr = ℕ

pub record Ipv4Range {ℓ} (Net : Type ℓ) : Type ℓ where
  pub net : Net

pub record EgressPolicy {ℓ} (Net : Type ℓ) : Type ℓ where
  pub default_action : EgressAction
  pub reason : EgressReason
  pub allow_domains : List Bytes
  pub allow_ip_ranges : List (Ipv4Range Net)
  pub deny_ip_ranges : List (Ipv4Range Net)

pub record EthernetPolicy : Type 0 where
  pub allow_arp : Bool
  pub unknown_ethertypes : UnsupportedPolicy

pub record Ipv4Policy : Type 0 where
  pub allow_icmp_to_gateway : Bool
  pub unknown_protocols : UnsupportedPolicy

pub record UdpPolicy : Type 0 where
  pub allow_dns_to_gateway : Bool
  pub block_udp_443 : Bool
  pub default_action : EgressAction

pub record TcpPolicy : Type 0 where
  pub default_action : EgressAction
  pub intercept_http_port_80 : Bool
  pub intercept_https_port_443 : Bool

pub record ProtocolPolicy : Type 0 where
  pub ethernet : EthernetPolicy
  pub ipv4 : Ipv4Policy
  pub ipv6 : UnsupportedPolicy
  pub udp : UdpPolicy
  pub tcp : TcpPolicy

pub data HostListenerPurpose : Type 0 where
  docker_api payload_control published_tcp : HostListenerPurpose

pub record HostListener : Type 0 where
  pub host_addr : String
  pub host_port : ℕ
  pub guest_port : ℕ
  pub purpose : HostListenerPurpose

pub record PublishedPort : Type 0 where
  pub host_port : ℕ
  pub guest_port : ℕ

pub record CapturePolicy : Type 0 where
  pub pcap_path : Option String
  pub capture_guest_side_frames : Bool

pub record TlsMitmPolicy : Type 0 where
  pub ca_cert_path : Option String
  pub ca_key_path : Option String
  pub generate_per_host_certs : Bool

pub record VmnetPolicy {ℓ} (Net : Type ℓ) : Type ℓ where
  pub assignment : GuestNetwork
  pub mtu : ℕ
  pub egress : EgressPolicy Net
  pub protocols : ProtocolPolicy
  pub host_listeners : List HostListener
  pub capture : CapturePolicy
  pub tls_mitm : TlsMitmPolicy

abbrev pub default_protocols : ProtocolPolicy
default_protocols = record {
  ethernet = record { allow_arp = true; unknown_ethertypes = deny_and_log };
  ipv4 = record { allow_icmp_to_gateway = true; unknown_protocols = deny_and_log };
  ipv6 = deny_and_log;
  udp = record { allow_dns_to_gateway = true; block_udp_443 = true; default_action = deny };
  tcp = record {
    default_action = deny;
    intercept_http_port_80 = true;
    intercept_https_port_443 = true;
  };
}

-- `HostListener::loopback`.
abbrev pub loopback : ℕ → ℕ → HostListenerPurpose → HostListener
loopback host_port guest_port purpose = record {
  host_addr = "127.0.0.1";
  host_port = host_port;
  guest_port = guest_port;
  purpose = purpose;
}

pub data PolicyError : Type 0 where
  published_ports_require_guest_egress : PolicyError

pub data Checked {ℓ} (A : Type ℓ) : Type ℓ where
  ok : A → Checked A
  err : PolicyError → Checked A

-- What the policy uses of the crates `ipnet` and of `std::net`: the parsers (`none` is their error)
-- and membership.
pub record Nets : Type 1 where
  pub Net : Type 0
  pub parse_net : Bytes → Option Net
  pub parse_addr : Bytes → Option Ipv4Addr
  pub host_net : Ipv4Addr → Net
  pub has : Net → Ipv4Addr → Bool

-- "0.0.0.0/8", "10.0.0.0/8", "100.64.0.0/10", "127.0.0.0/8", "169.254.0.0/16",
-- "169.254.169.254/32", "172.16.0.0/12", "192.168.0.0/16", "224.0.0.0/4", "240.0.0.0/4".
abbrev default_deny_texts : List Bytes
default_deny_texts =
    (b'0' ∷ b'.' ∷ b'0' ∷ b'.' ∷ b'0' ∷ b'.' ∷ b'0' ∷ b'/' ∷ b'8' ∷ [])
    ∷ (b'1' ∷ b'0' ∷ b'.' ∷ b'0' ∷ b'.' ∷ b'0' ∷ b'.' ∷ b'0' ∷ b'/' ∷ b'8' ∷ [])
    ∷ (b'1' ∷ b'0' ∷ b'0' ∷ b'.' ∷ b'6' ∷ b'4' ∷ b'.' ∷ b'0' ∷ b'.' ∷ b'0' ∷ b'/' ∷ b'1' ∷ b'0'
        ∷ [])
    ∷ (b'1' ∷ b'2' ∷ b'7' ∷ b'.' ∷ b'0' ∷ b'.' ∷ b'0' ∷ b'.' ∷ b'0' ∷ b'/' ∷ b'8' ∷ [])
    ∷ (b'1' ∷ b'6' ∷ b'9' ∷ b'.' ∷ b'2' ∷ b'5' ∷ b'4' ∷ b'.' ∷ b'0' ∷ b'.' ∷ b'0' ∷ b'/' ∷ b'1'
        ∷ b'6' ∷ [])
    ∷ (b'1' ∷ b'6' ∷ b'9' ∷ b'.' ∷ b'2' ∷ b'5' ∷ b'4' ∷ b'.' ∷ b'1' ∷ b'6' ∷ b'9' ∷ b'.' ∷ b'2'
        ∷ b'5' ∷ b'4' ∷ b'/' ∷ b'3' ∷ b'2' ∷ [])
    ∷ (b'1' ∷ b'7' ∷ b'2' ∷ b'.' ∷ b'1' ∷ b'6' ∷ b'.' ∷ b'0' ∷ b'.' ∷ b'0' ∷ b'/' ∷ b'1' ∷ b'2'
        ∷ [])
    ∷ (b'1' ∷ b'9' ∷ b'2' ∷ b'.' ∷ b'1' ∷ b'6' ∷ b'8' ∷ b'.' ∷ b'0' ∷ b'.' ∷ b'0' ∷ b'/' ∷ b'1'
        ∷ b'6' ∷ [])
    ∷ (b'2' ∷ b'2' ∷ b'4' ∷ b'.' ∷ b'0' ∷ b'.' ∷ b'0' ∷ b'.' ∷ b'0' ∷ b'/' ∷ b'4' ∷ [])
    ∷ (b'2' ∷ b'4' ∷ b'0' ∷ b'.' ∷ b'0' ∷ b'.' ∷ b'0' ∷ b'.' ∷ b'0' ∷ b'/' ∷ b'4' ∷ [])
    ∷ []

module _ (nets : Nets) where
  open nets use {Net, parse_net, parse_addr, host_net, has}

  -- `Ipv4Range::parse`; `none` is an `Ipv4RangeParseError` with the text.
  unfoldable pub parse_range : Bytes → Option (Ipv4Range Net)
  parse_range value = elim (parse_net value) [
    | some net ↦ some (record { net = net })
    | none ↦ elim (parse_addr value) [ some ip ↦ some (record { net = host_net ip }) | none ↦ none ]
  ]

  -- `parse_ipv4_ranges`: all of the values, or the first error.
  unfoldable pub parse_ipv4_ranges : List Bytes → Option (List (Ipv4Range Net))
  unfolding parse_range
  parse_ipv4_ranges [] = some []
  parse_ipv4_ranges (value ∷ values) = elim (parse_range value) [
    | none ↦ none
    | some range ↦ elim (parse_ipv4_ranges values) [
      | none ↦ none
      | some ranges ↦ some (range ∷ ranges)
    ]
  ]

  -- `default_deny_ranges`; `none` is its panic.
  unfoldable pub default_deny_ranges : Option (List (Ipv4Range Net))
  unfolding parse_ipv4_ranges
  default_deny_ranges = parse_ipv4_ranges default_deny_texts

  -- `Ipv4Range::contains`.
  abbrev pub contains : Ipv4Range Net → Ipv4Addr → Bool
  contains range ip = has range.net ip

  -- `EgressPolicy::allow_ip_or_cidr`, with the policy after the call.
  unfoldable pub allow_ip_or_cidr : EgressPolicy Net → Bytes → Option (EgressPolicy Net)
  unfolding parse_range
  allow_ip_or_cidr egress value = elim (parse_range value) [
    | none ↦ none
    | some range ↦ some (record egress { allow_ip_ranges = egress.allow_ip_ranges ++ range ∷ [] })
  ]

  module _ (deny_ranges : List (Ipv4Range Net)) where
    -- `EgressPolicy::default`, on the result of `default_deny_ranges`.
    abbrev pub default_egress : EgressPolicy Net
    default_egress = record {
      default_action = deny;
      reason = deny_by_default;
      allow_domains = [];
      allow_ip_ranges = [];
      deny_ip_ranges = deny_ranges;
    }

    -- `VmnetPolicy::default_sandbox`.
    unfoldable pub default_sandbox : GuestNetwork → VmnetPolicy Net
    default_sandbox assignment = record {
      assignment = assignment;
      mtu = 1500;
      egress = default_egress;
      protocols = default_protocols;
      host_listeners = [];
      capture = record { pcap_path = none; capture_guest_side_frames = false };
      tls_mitm = record {
        ca_cert_path = none;
        ca_key_path = none;
        generate_per_host_certs = false;
      };
    }

    abbrev pub published : PublishedPort → HostListener
    published port = loopback port.host_port port.guest_port published_tcp

    -- `VmnetPolicy::from_cli`.
    unfoldable pub from_cli : GuestNetwork → Bool → List PublishedPort → Checked (VmnetPolicy Net)
    unfolding default_sandbox
    from_cli assignment no_net published_ports =
        if no_net && not (length published_ports == 0)
        then err published_ports_require_guest_egress
        else let policy = default_sandbox assignment in
          let egress = policy.egress in
          let policy' =
            if no_net
            then record policy {
              egress = record egress { default_action = deny; reason = no_net_flag };
            }
            else policy in
          ok (record policy' {
            host_listeners = policy'.host_listeners ++ map published published_ports;
          })
