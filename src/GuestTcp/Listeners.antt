-- ===== src/GuestTcp/Listeners.antt =====
-- `ensure_listener` of vm-frontend/src/guest_tcp.rs: a listening socket for a port, an old one if
-- there is one.
use wrapper.Common.{
  ℕ, ◌≡◌, refl, Bool, true, false, ◌&&◌, ◌||◌, none, some, List, [], ◌∷◌, ◌++◌, map, ◌==◌, arith,
  ◌⊎◌, inl, inr, Bool-cases, ⊎-cases,
}
use wrapper.Run.{Run, err, ok}
use wrapper.GuestTcp.Sockets.{Handle, SmolTcp, SmolTcpLaws, is_listen}
use wrapper.GuestTcp.{
  contains, GuestTcpCore, listener_handle, connection_handle, listen_tcp, find_listener,
  ensure_listener, TcpListenerSlot, default_tcp_buffer_bytes,
}
use wrapper.GuestTcp.Handles.{contains-append, map_push}
use wrapper.GuestTcp.Reap.{AllLive}
use wrapper.GuestTcp.Invariant.{IsValid, Owned-add}

abbrev pub has_slot : ℕ → Handle → List TcpListenerSlot → Bool
has_slot port h [] = false
has_slot port h (slot ∷ slots) = (slot.port == port && slot.handle == h) || has_slot port h slots

has_slot_push :
    (port : ℕ) (h : Handle) (slots : List TcpListenerSlot)
    → has_slot port h (slots ++ record { port = port; handle = h } ∷ []) ≡ true
has_slot_push port h [] = ground arith
has_slot_push port h (slot ∷ slots) = ground (arith, has_slot_push port h slots)

module _ (smol : SmolTcp) (laws : SmolTcpLaws smol) where
  open smol use {SocketSet, ListenError, add, get, state, listen_on, new_socket}
  open laws use {get-add_self, listen_on-state}

  abbrev pub listening_at : SocketSet → Handle → Bool
  listening_at s h = elim (get s h) [ none ↦ false | some socket ↦ is_listen (state socket) ]

  -- A slot for the port has a socket that listens.
  abbrev pub any_listening : SocketSet → ℕ → List TcpListenerSlot → Bool
  any_listening s port [] = false
  any_listening s port (slot ∷ slots) =
      (slot.port == port && listening_at s slot.handle) || any_listening s port slots

  find_listener_lem :
      (port : ℕ) (s : SocketSet) (slots : List TcpListenerSlot)
      → AllLive smol laws s (map listener_handle slots)
      → ((find_listener smol port s slots ≡ some none) × (any_listening s port slots ≡ false))
        ⊎ ((h : Handle) × ((find_listener smol port s slots ≡ some (some h))
              × ((has_slot port h slots ≡ true)
                  × ((listening_at s h ≡ true) × (any_listening s port slots ≡ true)))))
  unfolding contains find_listener
  find_listener_lem port s [] l = inl (refl, refl)
  find_listener_lem port s (slot ∷ slots) l =
      let ih = find_listener_lem port s slots (λ k e. l k (ground arith)) in
      let live = l slot.handle (ground arith) in
      elim (Bool-cases (slot.port == port)) [
        | inl p ↦ elim (Bool-cases (listening_at s slot.handle)) [
          | inl q ↦
              inr (
                slot.handle,
                (ground (arith, p, q), (ground (arith, p), (q, ground (arith, p, q)))),
              )
          | inr q ↦ elim ih [
            | inl (e, n) ↦ inl (ground (arith, p, q, live, e), ground (arith, p, q, n))
            | inr (h, (e, (a, (b, n)))) ↦
                inr
                  (h, (ground (arith, p, q, live, e), (ground (arith, a), (b, ground (arith, n)))))
          ]
        ]
        | inr p ↦ elim ih [
          | inl (e, n) ↦ inl (ground (arith, p, e), ground (arith, p, n))
          | inr (h, (e, (a, (b, n)))) ↦
              inr (h, (ground (arith, p, e), (ground (arith, a), (b, ground (arith, n)))))
        ]
      ]

  abbrev pub Listening : GuestTcpCore smol → ℕ → Handle → Type 0
  Listening core port h =
      (has_slot port h core.listeners ≡ true) × (listening_at core.sockets h ≡ true)

  -- A new listener: the error of a socket that cannot listen on the port, or a handle that listens,
  -- in a valid core with one slot more.
  abbrev pub Opened : ℕ → GuestTcpCore smol → Run ListenError (Handle × GuestTcpCore smol) → Type 0
  Opened port core r =
      ((e : ListenError) × ((listen_on port (new_socket default_tcp_buffer_bytes) ≡ inl e)
          × (r ≡ err e)))
      ⊎ ((h : Handle) × ((core' : GuestTcpCore smol) × ((r ≡ ok (h, core'))
              × ((Listening core' port h)
                  × (IsValid smol laws core'
                      × (core'.listeners
                          ≡ core.listeners ++ record { port = port; handle = h } ∷ []))))))

  -- Where a slot for the port listens: the handle of one that does, and the core as it was.
  -- Otherwise a new listener.
  abbrev pub Ensured : ℕ → GuestTcpCore smol → Run ListenError (Handle × GuestTcpCore smol) → Type 0
  Ensured port core r =
      ((any_listening core.sockets port core.listeners ≡ true)
        × ((h : Handle) × ((r ≡ ok (h, core)) × (Listening core port h))))
      ⊎ ((any_listening core.sockets port core.listeners ≡ false) × Opened port core r)

  listen_tcp-Opened :
      (port : ℕ) (core : GuestTcpCore smol)
      → IsValid smol laws core
      → Opened port core (listen_tcp smol port core)
  unfolding listen_tcp
  listen_tcp-Opened port core v =
      elim (⊎-cases (listen_on port (new_socket default_tcp_buffer_bytes))) [
        | inl (e, p) ↦ inl (e, (p, rw (listen_tcp, p) refl))
        | inr (c, p) ↦
            let h = (add c core.sockets).0 in
            let slot : TcpListenerSlot = record { port = port; handle = h } in
            let e =
              map_push listener_handle core.listeners slot
                (map connection_handle core.host_connections) in
            let valid =
              Owned-add smol laws c core.sockets (map listener_handle core.listeners)
                (map connection_handle core.host_connections) v.0 v.1 in
            inr (
              h,
              (
                record core {
                  sockets = (add c core.sockets).1;
                  listeners = core.listeners ++ slot ∷ [];
                },
                (
                  rw (listen_tcp, p) refl,
                  (
                    (
                      has_slot_push port h core.listeners,
                      rw
                          (
                            listening_at,
                            get-add_self c core.sockets,
                            listen_on-state port default_tcp_buffer_bytes c p,
                          )
                          refl,
                    ),
                    (rw e valid, refl),
                  ),
                ),
              ),
            )
      ]

  -- Where the slots own the sockets: ensure_listener does not panic. If a slot for the port has a
  -- socket that listens, it returns the handle of such a slot and the core as it was. Otherwise it
  -- reports the error of a new socket that cannot listen on the port, or returns the handle of a
  -- socket that listens, in one slot more; the slots own the sockets then.
  pub ensure_listener-Ensured :
      (port : ℕ) (core : GuestTcpCore smol)
      → IsValid smol laws core
      → Ensured port core (ensure_listener smol port core)
  unfolding ensure_listener
  ensure_listener-Ensured port core v =
      elim (find_listener_lem port core.sockets core.listeners (λ h e. ground (
        arith,
        v.1 h,
        contains-append (map listener_handle core.listeners)
            (map connection_handle core.host_connections) h,
      ))) [
        | inl (e, n) ↦ inr (n, rw (ensure_listener, e) (listen_tcp-Opened port core v))
        | inr (h, (e, (a, (b, n)))) ↦ inl (n, (h, (rw (ensure_listener, e) refl, (a, b))))
      ]
