-- ===== src/GuestTcp/Reaped.antt =====
-- `reap_closed_sessions` of vm-frontend/src/guest_tcp.rs takes away the closed sockets, and no other.
use wrapper.Common.{
  ◌+◌, ◌≡◌, refl, true, not, ◌&&◌, Option, some, List, [], ◌∷◌, ◌++◌, map, arith, length,
}
use wrapper.GuestTcp.Sockets.{Handle, SmolTcp, SmolTcpLaws}
use wrapper.GuestTcp.{
  contains, retain, GuestTcpCore, GuestTcpReap, listener_handle, connection_handle,
}
use wrapper.GuestTcp.Handles.{contains-append, contains-retain, Distinct-retain}
use wrapper.GuestTcp.Sessions.{reap_closed_sessions}
use wrapper.GuestTcp.Reap.{
  closed_at, closed_of, closed_handles_lem, contains-closed_of, Distinct-closed_of, remove_all_lem,
}
use wrapper.GuestTcp.Invariant.{slot_handles, IsValid}

module _ (smol : SmolTcp) (laws : SmolTcpLaws smol) where
  open smol use {SocketSet, get}

  abbrev Core : Type 0
  Core = GuestTcpCore smol

  length-retain {ℓ} :
      {A : Type ℓ} (f : A → Handle) (s : SocketSet) (gone : List Handle) (slots : List A)
      → ((h : Handle) → contains (map f slots) h ≡ true → contains gone h ≡ closed_at smol laws s h)
      → length (closed_of smol laws s (map f slots)) + length (retain f gone slots) ≡ length slots
  unfolding contains retain
  length-retain f s gone [] g = refl
  length-retain f s gone (x ∷ slots) g =
      let ih = length-retain f s gone slots (λ h e. g h (ground arith)) in
      ground (arith, ih, g (f x) (ground arith))

  module _ (core : Core) where
    abbrev gone_listeners : List Handle
    gone_listeners = closed_of smol laws core.sockets (map listener_handle core.listeners)

    abbrev gone_connections : List Handle
    gone_connections =
        closed_of smol laws core.sockets (map connection_handle core.host_connections)

    contains-gone :
        (h : Handle)
        → contains (gone_listeners ++ gone_connections) h
          ≡ contains (slot_handles smol laws core) h && closed_at smol laws core.sockets h
    contains-gone h = ground (
      arith,
      contains-append (map listener_handle core.listeners)
          (map connection_handle core.host_connections) h,
      contains-append gone_listeners gone_connections h,
      contains-closed_of smol laws core.sockets (map listener_handle core.listeners) h,
      contains-closed_of smol laws core.sockets (map connection_handle core.host_connections) h,
    )

    contains-kept :
        (h : Handle)
        → contains
            (map listener_handle (retain listener_handle gone_listeners core.listeners)
              ++ map connection_handle
                  (retain connection_handle gone_connections core.host_connections))
            h
          ≡ contains (slot_handles smol laws core) h && not (closed_at smol laws core.sockets h)
    contains-kept h = ground (
      arith,
      contains-append (map listener_handle core.listeners)
          (map connection_handle core.host_connections) h,
      contains-append (map listener_handle (retain listener_handle gone_listeners core.listeners))
          (map connection_handle (retain connection_handle gone_connections core.host_connections))
          h,
      contains-retain listener_handle gone_listeners core.listeners h,
      contains-retain connection_handle gone_connections core.host_connections h,
      contains-closed_of smol laws core.sockets (map listener_handle core.listeners) h,
      contains-closed_of smol laws core.sockets (map connection_handle core.host_connections) h,
    )

  -- The counts are those of the slots that are gone; the sockets that are kept are those that are
  -- not closed, and they are as they were.
  abbrev pub Reaped : Core → Option (GuestTcpReap × Core) → Type 0
  Reaped core r =
      (reap : GuestTcpReap) × ((core' : Core) × ((r ≡ some (reap, core'))
          × (IsValid smol laws core'
              × (((reap.listener_sessions + length core'.listeners ≡ length core.listeners)
                    × (reap.host_connections + length core'.host_connections
                        ≡ length core.host_connections))
                  × ((h : Handle)
                      → (contains (slot_handles smol laws core') h
                          ≡ contains (slot_handles smol laws core) h
                            && not (closed_at smol laws core.sockets h))
                        × (contains (slot_handles smol laws core') h ≡ true
                            → get core'.sockets h ≡ get core.sockets h))))))

  -- Where the slots own the sockets: reap_closed_sessions does not panic, the slots of the result own
  -- the sockets that are left, these are the sockets that were not closed, unchanged, and the counts
  -- are those of the slots taken away.
  pub reap_closed_sessions-Reaped :
      (core : Core) → IsValid smol laws core → Reaped core (reap_closed_sessions smol core)
  unfolding reap_closed_sessions
  reap_closed_sessions-Reaped core (d, o) =
      let s = core.sockets in
      let ls = map listener_handle core.listeners in
      let hs = map connection_handle core.host_connections in
      let gone_l = closed_of smol laws s ls in
      let gone_h = closed_of smol laws s hs in
      let live_l =
        closed_handles_lem smol laws s ls (λ h e. ground (arith, o h, contains-append ls hs h)) in
      let live_h =
        closed_handles_lem smol laws s hs (λ h e. ground (arith, o h, contains-append ls hs h)) in
      let (s', (r, g)) =
        remove_all_lem smol laws (gone_l ++ gone_h) s (Distinct-closed_of smol laws s ls hs d)
          (λ h e. ground (arith, o h, contains-gone core h)) in
      (
        record { listener_sessions = length gone_l; host_connections = length gone_h },
        (
          record core {
            sockets = s';
            listeners = retain listener_handle gone_l core.listeners;
            host_connections = retain connection_handle gone_h core.host_connections;
          },
          (
            rw (reap_closed_sessions, live_l, live_h, r) refl,
            (
              (
                Distinct-retain listener_handle connection_handle gone_l gone_h core.listeners
                    core.host_connections d,
                λ h. ground (arith, o h, g h, contains-gone core h, contains-kept core h),
              ),
              (
                (
                  length-retain listener_handle s gone_l core.listeners
                      (λ h e. ground (arith, contains-closed_of smol laws s ls h)),
                  length-retain connection_handle s gone_h core.host_connections
                      (λ h e. ground (arith, contains-closed_of smol laws s hs h)),
                ),
                λ h. (
                  contains-kept core h,
                  λ e. ground (arith, e, g h, contains-gone core h, contains-kept core h),
                ),
              ),
            ),
          ),
        ),
      )
