-- ===== src/Network.antt =====
-- `GuestNetwork` of vm-frontend/src/lib.rs: the guest's addresses as the user writes them.
use wrapper.Common.{ℕ, [], ◌∷◌, Bytes}

pub record GuestNetwork : Type 0 where
  pub guest_ip : Bytes
  pub gateway_ip : Bytes
  pub prefix_len : ℕ
  pub dns_ip : Bytes
  pub guest_mac : Bytes
  pub vmnet_reconnect_ms : ℕ

-- `Default`: 10.0.2.15, 10.0.2.2, /24, 10.0.2.3 and 02:fc:12:34:56:78, as text.
abbrev pub default_network : GuestNetwork
default_network = record {
  guest_ip = 49 ∷ 48 ∷ 46 ∷ 48 ∷ 46 ∷ 50 ∷ 46 ∷ 49 ∷ 53 ∷ [];
  gateway_ip = 49 ∷ 48 ∷ 46 ∷ 48 ∷ 46 ∷ 50 ∷ 46 ∷ 50 ∷ [];
  prefix_len = 24;
  dns_ip = 49 ∷ 48 ∷ 46 ∷ 48 ∷ 46 ∷ 50 ∷ 46 ∷ 51 ∷ [];
  guest_mac =
      48 ∷ 50 ∷ 58 ∷ 102 ∷ 99 ∷ 58 ∷ 49 ∷ 50 ∷ 58 ∷ 51 ∷ 52 ∷ 58 ∷ 53 ∷ 54 ∷ 58 ∷ 55 ∷ 56 ∷ [];
  vmnet_reconnect_ms = 250;
}
