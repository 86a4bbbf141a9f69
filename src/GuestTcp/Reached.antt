-- ===== src/GuestTcp/Reached.antt =====
-- The operations of `GuestTcpCore` of vm-frontend/src/guest_tcp.rs as steps: whatever the order in
-- which the gateway makes them, the slots own the sockets.
use wrapper.Common.{
  ℕ, ◌+◌, ◌≡◌, refl, sym, ◌∙◌, subst, Option, none, some, [], ◌∷◌, ◌++◌, append-nil, map, Bytes,
  ◌==◌, arith, ==_iff, ◌⊎◌, inl, inr, Bool-cases, Option-cases, ⊎-cases, length,
}
use wrapper.Run.{Run, Run-cases, panic, err, ok}
use wrapper.Network.{GuestNetwork}
use wrapper.L2.{Ipv4, Mac}
use wrapper.GuestTcp.Sockets.{Handle, SmolTcp, SmolTcpLaws}
use wrapper.GuestTcp.{
  contains, GuestTcpCore, GuestTcpReap, QueuedEthernetDevice, TcpConnectionSlot, listener_handle,
  connection_handle, new_core, ensure_listener, poll_core, connect_to_guest,
  default_tcp_buffer_bytes, parse_ipv4,
}
use wrapper.GuestTcp.Handles.{map_push_end}
use wrapper.GuestTcp.Sessions.{
  reap_closed_sessions, close_session, send_to_session, recv_available, recv_loop,
}
use wrapper.GuestTcp.Invariant.{IsValid, Owned-add}
use wrapper.GuestTcp.Reaped.{Reaped, reap_closed_sessions-Reaped}
use wrapper.GuestTcp.Listeners.{Ensured, ensure_listener-Ensured}

module _ (smol : SmolTcp) (laws : SmolTcpLaws smol) where
  open smol use {
    Socket, SocketSet, Instant, ConnectError, add, get, put, remove, state, poll, connect_to,
    new_socket, close, send_slice, recv_buffer,
  }
  open laws use {get-no_sockets, get-put_self, get-put_other, is_some-poll}

  abbrev Core : Type 0
  Core = GuestTcpCore smol

  abbrev Valid : Core → Type 0
  Valid core = IsValid smol laws core

  pub poll_core-IsValid :
      (now : Instant) (core : Core) (device : QueuedEthernetDevice)
      → Valid core
      → Valid (poll_core smol now core device).0
  unfolding poll_core
  poll_core-IsValid now core device v =
      (v.0, λ h. is_some-poll now device.rx device.tx core.iface core.sockets h ∙ v.1 h)

  put-IsValid :
      (core : Core) (h : Handle) (c c' : Socket)
      → Valid core
      → get core.sockets h ≡ some c
      → Valid (record core { sockets = put h c' core.sockets })
  put-IsValid core h c c' v e = (
    v.0,
    λ k. elim (Bool-cases (k == h)) [
      | inl p ↦
          let q = (==_iff k h).0 p in
          rw q (rw (get-put_self h c' core.sockets (rw e refl)) (ground (arith, v.1 h, e)))
      | inr p ↦ rw (get-put_other h k c' core.sockets (λ q. ground (arith, q, p))) (v.1 k)
    ],
  )

  -- A result with a core has a valid one.
  abbrev ValidRun {ℓ κ} : {E : Type ℓ} {A : Type κ} → Run E (A × Core) → Type 0
  ValidRun panic = Unit {0}
  ValidRun (err e) = Unit {0}
  ValidRun (ok (a, core)) = Valid core

  abbrev ValidSum {ℓ} : {E : Type ℓ} → E ⊎ (Handle × (Core × QueuedEthernetDevice)) → Type 0
  ValidSum (inl e) = Unit {0}
  ValidSum (inr (h, (core, device))) = Valid core

  abbrev ValidOption : Option Core → Type 0
  ValidOption none = Unit {0}
  ValidOption (some core) = Valid core

  pub connect_to_guest-IsValid :
      (from_str : Bytes → Option Ipv4) (network : GuestNetwork) (guest_port local_port : ℕ)
      (now : Instant) (core : Core) (device : QueuedEthernetDevice)
      → Valid core
      → ValidSum (connect_to_guest smol from_str network guest_port local_port now core device)
  unfolding connect_to_guest
  connect_to_guest-IsValid from_str network guest_port local_port now core device v =
      elim (⊎-cases (parse_ipv4 from_str network.guest_ip)) [
        | inl (x, p) ↦ rw (connect_to_guest, p) tt
        | inr (ip, p) ↦
            elim (⊎-cases (
              connect_to core.iface ip guest_port local_port
                (new_socket default_tcp_buffer_bytes))) [
                  | inl (x, q) ↦ rw (connect_to_guest, p, q) tt
                  | inr ((c, iface), q) ↦
                      let slot : TcpConnectionSlot = record {
                        guest_port = guest_port;
                        local_port = local_port;
                        handle = (add c core.sockets).0;
                      } in
                      let core1 : Core = record core {
                        iface = iface;
                        sockets = (add c core.sockets).1;
                        host_connections = core.host_connections ++ slot ∷ [];
                      } in
                      let ls = map listener_handle core.listeners in
                      let hs = map connection_handle core.host_connections in
                      let end = map_push_end connection_handle ls core.host_connections slot in
                      let owned =
                        Owned-add smol laws c core.sockets (ls ++ hs) []
                          (rw (append-nil (ls ++ hs)) v.0) (rw (append-nil (ls ++ hs)) v.1) in
                      rw (connect_to_guest, p, q)
                        (poll_core-IsValid now core1 device (rw end owned))
                ]
      ]

  send_to_session-IsValid :
      (h : Handle) (bytes : Bytes) (core : Core)
      → Valid core
      → ValidRun (send_to_session smol h bytes core)
  unfolding send_to_session
  send_to_session-IsValid h bytes core v = elim (Option-cases (get core.sockets h)) [
    | inl e ↦ rw (send_to_session, e) tt
    | inr (c, e) ↦ elim (⊎-cases (send_slice bytes c)) [
      | inl (x, p) ↦ rw (send_to_session, e, p) tt
      | inr ((n, c'), p) ↦ rw (send_to_session, e, p) (put-IsValid core h c c' v e)
    ]
  ]

  close_session-IsValid :
      (h : Handle) (core : Core) → Valid core → ValidOption (close_session smol h core)
  unfolding close_session
  close_session-IsValid h core v = elim (Option-cases (get core.sockets h)) [
    | inl e ↦ rw (close_session, e) tt
    | inr (c, e) ↦ rw (close_session, e) (put-IsValid core h c (close c) v e)
  ]

  recv_available-IsValid :
      (h : Handle) (core : Core) → Valid core → ValidRun (recv_available smol h core)
  unfolding recv_available
  recv_available-IsValid h core v = elim (Option-cases (get core.sockets h)) [
    | inl e ↦ rw (recv_available, e) tt
    | inr (c, e) ↦ elim (Run-cases (recv_loop smol (length (recv_buffer c) + 1) [] c)) [
      | inl p ↦ rw (recv_available, e, p) tt
      | inr (inl (x, p)) ↦ rw (recv_available, e, p) tt
      | inr (inr ((bytes, c'), p)) ↦ rw (recv_available, e, p) (put-IsValid core h c c' v e)
    ]
  ]

  Ensured-IsValid :
      (port : ℕ) (core : Core) {r : Run smol.ListenError (Handle × Core)}
      → Valid core
      → Ensured smol laws port core r
      → ValidRun r
  Ensured-IsValid port core v (inl (n, (h, (e, l)))) = rw e v
  Ensured-IsValid port core v (inr (n, inl (x, (p, e)))) = rw e tt
  Ensured-IsValid port core v (inr (n, inr (h, (core', (e, (l, (w, c))))))) = rw e w

  abbrev ValidReap : Option (GuestTcpReap × Core) → Type 0
  ValidReap none = Unit {0}
  ValidReap (some (counts, core)) = Valid core

  Reaped-IsValid :
      (core : Core) {r : Option (GuestTcpReap × Core)} → Reaped smol laws core r → ValidReap r
  Reaped-IsValid core (counts, (core', (e, (v, rest)))) = rw e v

  abbrev ValidNew {ℓ} : {E : Type ℓ} → E ⊎ Core → Type 0
  ValidNew (inl e) = Unit {0}
  ValidNew (inr core) = Valid core

  new_core-IsValid :
      (from_str : Bytes → Option Ipv4) (network : GuestNetwork) (mac : Mac) (now : Instant)
      → ValidNew (new_core smol from_str network mac now)
  unfolding contains new_core
  new_core-IsValid from_str network mac now =
      elim (⊎-cases (parse_ipv4 from_str network.gateway_ip)) [
        | inl (x, p) ↦ rw (new_core, p) tt
        | inr (ip, p) ↦ rw (new_core, p) (tt, λ h. rw (get-no_sockets h) refl)
      ]

  -- One operation of the gateway on the core.
  pub data Step (core core' : Core) : Type 0 where
    listened :
        (port : ℕ) (h : Handle) → ensure_listener smol port core ≡ ok (h, core') → Step core core'
    polled :
        (now : Instant) (device : QueuedEthernetDevice)
        → core' ≡ (poll_core smol now core device).0
        → Step core core'
    connected :
        (from_str : Bytes → Option Ipv4) (network : GuestNetwork) (guest_port local_port : ℕ)
        (now : Instant) (device device' : QueuedEthernetDevice) (h : Handle)
        → connect_to_guest smol from_str network guest_port local_port now core device
          ≡ inr (h, (core', device'))
        → Step core core'
    received :
        (h : Handle) (bytes : Bytes)
        → recv_available smol h core ≡ ok (bytes, core')
        → Step core core'
    sent :
        (h : Handle) (bytes : Bytes) (n : ℕ)
        → send_to_session smol h bytes core ≡ ok (n, core')
        → Step core core'
    ended : (h : Handle) → close_session smol h core ≡ some core' → Step core core'
    reaped :
        (counts : GuestTcpReap)
        → reap_closed_sessions smol core ≡ some (counts, core')
        → Step core core'

  pub data Reach (start : Core) : Core → Type 0 where
    here : Reach start start
    next : {core core' : Core} → Reach start core → Step core core' → Reach start core'

  Step-IsValid : (core core' : Core) → Step core core' → Valid core → Valid core'
  Step-IsValid core core' (listened port h e) v =
      subst ValidRun e (Ensured-IsValid port core v (ensure_listener-Ensured smol laws port core v))
  Step-IsValid core core' (polled now device e) v =
      subst Valid (sym e) (poll_core-IsValid now core device v)
  Step-IsValid core core' (connected f network g l now device device' h e) v =
      subst ValidSum e (connect_to_guest-IsValid f network g l now core device v)
  Step-IsValid core core' (received h bytes e) v =
      subst ValidRun e (recv_available-IsValid h core v)
  Step-IsValid core core' (sent h bytes n e) v =
      subst ValidRun e (send_to_session-IsValid h bytes core v)
  Step-IsValid core core' (ended h e) v = subst ValidOption e (close_session-IsValid h core v)
  Step-IsValid core core' (reaped counts e) v =
      subst ValidReap e (Reaped-IsValid core (reap_closed_sessions-Reaped smol laws core v))

  -- From a new core, whatever operations follow each other: every handle stands in one slot at most,
  -- and the sockets of the set are exactly those that a slot owns.
  pub Reach-IsValid :
      (from_str : Bytes → Option Ipv4) (network : GuestNetwork) (mac : Mac) (now : Instant)
      (start core : Core)
      → new_core smol from_str network mac now ≡ inr start
      → Reach start core
      → Valid core
  Reach-IsValid from_str network mac now start core e here =
      subst ValidNew e (new_core-IsValid from_str network mac now)
  Reach-IsValid from_str network mac now start core e (next r s) =
      Step-IsValid _ core s (Reach-IsValid from_str network mac now start _ e r)
