-- ===== src/GuestTcp/Invariant.antt =====
-- The slots of `GuestTcpCore` of vm-frontend/src/guest_tcp.rs own the sockets of the set.
use wrapper.Common.{
  ◌≡◌, ap, List, ◌∷◌, ◌++◌, map, ◌==◌, arith, ==_iff, inl, inr, Bool-cases, is_some,
}
use wrapper.GuestTcp.Sockets.{Handle, SmolTcp, SmolTcpLaws}
use wrapper.GuestTcp.{contains, GuestTcpCore, listener_handle, connection_handle}
use wrapper.GuestTcp.Handles.{Distinct, contains_insert, Distinct-insert}

module _ (smol : SmolTcp) (laws : SmolTcpLaws smol) where
  open smol use {Socket, SocketSet, Interface, Instant, add, get, put, remove, state, poll}
  open laws use {
    get-add_fresh, get-add_self, get-add_other, get-put_self, get-put_other, is_some-poll,
  }

  abbrev Core : Type 0
  Core = GuestTcpCore smol

  abbrev pub slot_handles : Core → List Handle
  slot_handles core =
      map listener_handle core.listeners ++ map connection_handle core.host_connections

  -- Every handle stands in one slot at most, and the sockets of the set are those of the slots.
  abbrev pub IsValid : Core → Type 0
  IsValid core =
      Distinct (slot_handles core)
      × ((h : Handle) → is_some (get core.sockets h) ≡ contains (slot_handles core) h)

  -- A socket that is added is one of its own.
  pub Owned-add :
      (c : Socket) (s : SocketSet) (xs ys : List Handle)
      → Distinct (xs ++ ys)
      → ((h : Handle) → is_some (get s h) ≡ contains (xs ++ ys) h)
      → Distinct (xs ++ (add c s).0 ∷ ys)
        × ((h : Handle) → is_some (get (add c s).1 h) ≡ contains (xs ++ (add c s).0 ∷ ys) h)
  Owned-add c s xs ys d o = (
    Distinct-insert xs ys (add c s).0 d
        (ground (o (add c s).0, ap is_some (get-add_fresh c s), arith)),
    λ h. elim (Bool-cases ((add c s).0 == h)) [
      | inl e ↦ ground (
        arith,
        e,
        contains_insert xs ys (add c s).0 h,
        ap (λ k. is_some (get (add c s).1 k)) ((==_iff (add c s).0 h).0 e),
        ap is_some (get-add_self c s),
      )
      | inr n ↦ ground (
        arith,
        o h,
        contains_insert xs ys (add c s).0 h,
        ap is_some (get-add_other c s h (λ p. ground (arith, n, p))),
      )
    ],
  )
