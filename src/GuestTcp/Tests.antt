-- ===== src/GuestTcp/Tests.antt =====
-- Runs of the model of vm-frontend/src/guest_tcp.rs on a small implementation of the sockets, which
-- numbers them, keeps what they hold, and whose interface sends back what it receives.
use wrapper.Common.{
  ℕ, ◌+◌, ◌≡◌, refl, sym, ap, ◌∙◌, Bool, Bool-cases, true, false, Option, none, some, [], ◌∷◌, ◌++◌,
  Bytes, ltb, ◌==◌, if◌then◌else◌, append-nil, ◌⊎◌, inl, inr, arith, length,
}
use wrapper.Run.{ok}
use wrapper.Network.{default_network}
use wrapper.L2.{Ipv4}
use wrapper.GuestTcp.Sockets.{
  Handle, SmolTcp, SmolTcpLaws, State, closed, listen, syn_sent, established,
}
use wrapper.GuestTcp.{GuestTcpCore, default_gateway_mac, ensure_listener, new_core, TcpListenerSlot}
use wrapper.GuestTcp.Sessions.{close_session, reap_closed_sessions, recv_available}
use wrapper.GuestTcp.{find_listener, listen_tcp}
use wrapper.GuestTcp.Invariant.{IsValid}
use wrapper.GuestTcp.Reached.{Reach, here, next, listened, ended, Reach-IsValid}
use wrapper.GuestTcp.Reaped.{Reaped, reap_closed_sessions-Reaped}
use wrapper.GuestTcp.Listeners.{Ensured, ensure_listener-Ensured}
use wrapper.GuestTcp.Receive.{recv_available-Received}

pub record ToySocket : Type 0 where
  pub toy_state : State
  pub held : Bytes

pub record ToySet : Type 0 where
  pub count : ℕ
  pub at : Handle → Option ToySocket

abbrev toy_get : ToySet → Handle → Option ToySocket
toy_get s h = if ltb h s.count then s.at h else none

abbrev toy_add : ToySocket → ToySet → Handle × ToySet
toy_add c s =
    (s.count, record { count = s.count + 1; at = λ k. if k == s.count then some c else s.at k })

abbrev toy_put : Handle → Option ToySocket → ToySet → ToySet
toy_put h o s = record s { at = λ k. if k == h then o else s.at k }

abbrev toy_listen : ℕ → ToySocket → Unit {0} ⊎ ToySocket
toy_listen port c = if port == 0 then inl tt else inr (record c { toy_state = listen })

abbrev toy_has : Bytes → Bool
toy_has [] = false
toy_has (b ∷ bs) = true

abbrev pub toy : SmolTcp
toy = record {
  Socket = ToySocket;
  SocketSet = ToySet;
  Interface = Unit {0};
  Instant = ℕ;
  Endpoint = ℕ;
  ListenError = Unit {0};
  ConnectError = Unit {0};
  RecvError = Unit {0};
  SendError = Unit {0};
  no_sockets = record { count = 0; at = λ h. none };
  add = toy_add;
  get = toy_get;
  put = λ h c. toy_put h (some c);
  remove = λ h. toy_put h none;
  new_socket = λ n. record { toy_state = closed; held = [] };
  listen_on = toy_listen;
  connect_to = λ i ip guest local c. inr (record c { toy_state = syn_sent }, i);
  state = λ c. c.toy_state;
  local_endpoint = λ c. none;
  remote_endpoint = λ c. none;
  can_recv = λ c. toy_has c.held;
  recv = λ c. inr (c.held, record c { held = [] });
  recv_buffer = λ c. c.held;
  send_slice = λ bytes c. inr (length bytes, c);
  close = λ c. record c { toy_state = closed };
  interface = λ mac ip prefix now. tt;
  poll = λ now rx tx i s. (([], tx ++ rx), (i, s));
  show_listen_error = λ e. "Unaddressable";
}

pub recv_lem :
    (st : State) (held : Bytes)
    → toy_has held ≡ true
    → (b : ℕ) × ((bs : Bytes) × ((c' : ToySocket) × ((toy.recv
                (record { toy_state = st; held = held })
              ≡ inr (b ∷ bs, c'))
            × (b ∷ (bs ++ c'.held) ≡ held))))
recv_lem st [] h = ground arith
recv_lem st (b ∷ bs) h =
    (b, (bs, (record { toy_state = st; held = [] }, (refl, ap (λ t. b ∷ t) (append-nil bs)))))

abbrev listened_state : Unit {0} ⊎ ToySocket → State
listened_state (inl e) = listen
listened_state (inr c) = c.toy_state

toy_listen_lem : (port : ℕ) (c : ToySocket) → listened_state (toy_listen port c) ≡ listen
toy_listen_lem port c = elim (Bool-cases (port == 0)) [ inl e ↦ rw e refl | inr e ↦ rw e refl ]

pub toy_laws : SmolTcpLaws toy
toy_laws = record {
  get-no_sockets = λ h. ground arith;
  get-add_fresh = λ c s. ground arith;
  get-add_self = λ c s. ground arith;
  get-add_other = λ c s h n. ground arith;
  get-put_self = λ h c s l. ground arith;
  get-put_other = λ h k c s n. ground arith;
  get-remove_self = λ h s. ground arith;
  get-remove_other = λ h k s n. ground arith;
  is_some-poll = λ now rx tx i s h. refl;
  listen_on-state =
      λ port n c e. sym (ap listened_state e) ∙ toy_listen_lem port (toy.new_socket n);
  recv-can_recv = λ c. recv_lem c.toy_state c.held;
}

abbrev pub from_str : Bytes → Option Ipv4
from_str text = some (10, 0, 2, 2)

-- A new core, with a listener on port 80, and the same with its socket closed.
abbrev pub fresh : GuestTcpCore toy
fresh = record { iface = tt; sockets = toy.no_sockets; listeners = []; host_connections = [] }

abbrev one_slot : TcpListenerSlot
one_slot = record { port = 80; handle = 0 }

abbrev pub listening : GuestTcpCore toy
listening = record fresh {
  sockets = (toy.add (record { toy_state = listen; held = [] }) toy.no_sockets).1;
  listeners = one_slot ∷ [];
}

abbrev closing_one : GuestTcpCore toy
closing_one = record listening {
  sockets = toy.put 0 (record { toy_state = closed; held = [] }) listening.sockets;
}

pub fresh-new_core : new_core toy from_str default_network default_gateway_mac 0 ≡ inr fresh
unfolding new_core
fresh-new_core = refl

pub listening-ensure_listener : ensure_listener toy 80 fresh ≡ ok (0, listening)
unfolding ensure_listener listen_tcp find_listener
listening-ensure_listener = refl

closing_one-close_session : close_session toy 0 listening ≡ some closing_one
unfolding close_session
closing_one-close_session = refl

closing_one-Reach : Reach toy toy_laws fresh closing_one
closing_one-Reach =
    next (next here (listened 80 0 listening-ensure_listener)) (ended 0 closing_one-close_session)

Reach-IsValid_example : IsValid toy toy_laws closing_one
Reach-IsValid_example =
    Reach-IsValid toy toy_laws from_str default_network default_gateway_mac 0 fresh closing_one
      fresh-new_core closing_one-Reach

pub Reach-fresh :
    (core : GuestTcpCore toy) → Reach toy toy_laws fresh core → IsValid toy toy_laws core
Reach-fresh core =
    Reach-IsValid toy toy_laws from_str default_network default_gateway_mac 0 fresh core
      fresh-new_core

reap_closed_sessions-Reaped_example :
    Reaped toy toy_laws closing_one (reap_closed_sessions toy closing_one)
reap_closed_sessions-Reaped_example =
    reap_closed_sessions-Reaped toy toy_laws closing_one (Reach-fresh closing_one closing_one-Reach)

ensure_listener-Ensured_example :
    Ensured toy toy_laws 80 closing_one (ensure_listener toy 80 closing_one)
ensure_listener-Ensured_example =
    ensure_listener-Ensured toy toy_laws 80 closing_one (Reach-fresh closing_one closing_one-Reach)

abbrev with_data : GuestTcpCore toy
with_data = record listening {
  sockets = toy.put 0 (record { toy_state = established; held = 7 ∷ 8 ∷ [] }) listening.sockets;
}

recv_available-Received_example :
    (bytes : Bytes) × ((core' : GuestTcpCore toy) × ((c' : ToySocket) × ((recv_available toy 0
              with_data
            ≡ ok (bytes, core'))
          × ((toy.get core'.sockets 0 ≡ some c')
              × ((bytes ++ c'.held ≡ 7 ∷ 8 ∷ []) × (toy.can_recv c' ≡ false))))))
recv_available-Received_example =
    recv_available-Received toy toy_laws 0 with_data
      (record { toy_state = established; held = 7 ∷ 8 ∷ [] }) refl
