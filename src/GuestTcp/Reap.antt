-- ===== src/GuestTcp/Reap.antt =====
-- Which sockets `closed_handles` and `remove_all` of vm-frontend/src/guest_tcp.rs name and remove.
use wrapper.Common.{
  ◌≡◌, refl, sym, ap, ◌∙◌, Bool, true, false, ◌&&◌, none, some, List, [], ◌∷◌, ◌++◌, ◌==◌,
  if◌then◌else◌, arith, ==_iff, inl, inr, Bool-cases, is_some,
}
use wrapper.GuestTcp.Sockets.{Handle, SmolTcp, SmolTcpLaws, is_closed}
use wrapper.GuestTcp.{contains}
use wrapper.GuestTcp.Handles.{Distinct, contains-append}
use wrapper.GuestTcp.Sessions.{closed_handles, remove_all}

module _ (smol : SmolTcp) (laws : SmolTcpLaws smol) where
  open smol use {SocketSet, get, remove, state}
  open laws use {get-remove_self, get-remove_other}

  -- The socket is there, and closed.
  abbrev pub closed_at : SocketSet → Handle → Bool
  closed_at s h = elim (get s h) [ none ↦ false | some socket ↦ is_closed (state socket) ]

  abbrev pub AllLive : SocketSet → List Handle → Type 0
  AllLive s hs = (h : Handle) → contains hs h ≡ true → is_some (get s h) ≡ true

  -- The handles of the closed sockets, in order.
  abbrev pub closed_of : SocketSet → List Handle → List Handle
  closed_of s [] = []
  closed_of s (h ∷ hs) = if closed_at s h then h ∷ closed_of s hs else closed_of s hs

  AllLive-head :
      (s : SocketSet) (h : Handle) (hs : List Handle)
      → AllLive s (h ∷ hs)
      → is_some (get s h) ≡ true
  unfolding contains
  AllLive-head s h hs l = l h (ground arith)

  AllLive-tail : (s : SocketSet) (h : Handle) (hs : List Handle) → AllLive s (h ∷ hs) → AllLive s hs
  unfolding contains
  AllLive-tail s h hs l k e = l k (ground arith)

  pub closed_handles_lem :
      (s : SocketSet) (hs : List Handle)
      → AllLive s hs
      → closed_handles smol s hs ≡ some (closed_of s hs)
  unfolding closed_handles
  closed_handles_lem s [] l = refl
  closed_handles_lem s (h ∷ hs) l =
      ground (arith, AllLive-head s h hs l, closed_handles_lem s hs (AllLive-tail s h hs l))

  pub contains-closed_of :
      (s : SocketSet) (hs : List Handle) (h : Handle)
      → contains (closed_of s hs) h ≡ contains hs h && closed_at s h
  unfolding contains
  contains-closed_of s [] h = refl
  contains-closed_of s (k ∷ hs) h = elim (Bool-cases (k == h)) [
    | inl e ↦ ground (arith, contains-closed_of s hs h, ap (closed_at s) ((==_iff k h).0 e), e)
    | inr n ↦ ground (arith, contains-closed_of s hs h, n)
  ]

  pub Distinct-closed_of :
      (s : SocketSet) (xs ys : List Handle)
      → Distinct (xs ++ ys)
      → Distinct (closed_of s xs ++ closed_of s ys)
  Distinct-closed_of s [] [] d = tt
  Distinct-closed_of s [] (y ∷ ys) d = elim (Bool-cases (closed_at s y)) [
    | inl e ↦ rw e (ground (arith, contains-closed_of s ys y), Distinct-closed_of s [] ys d.1)
    | inr n ↦ rw n (Distinct-closed_of s [] ys d.1)
  ]
  Distinct-closed_of s (x ∷ xs) ys d = elim (Bool-cases (closed_at s x)) [
    | inl e ↦ rw e (
      ground (
        arith,
        contains-append xs ys x,
        contains-append (closed_of s xs) (closed_of s ys) x,
        contains-closed_of s xs x,
        contains-closed_of s ys x,
      ),
      Distinct-closed_of s xs ys d.1,
    )
    | inr n ↦ rw n (Distinct-closed_of s xs ys d.1)
  ]

  AllLive-remove :
      (s : SocketSet) (h : Handle) (hs : List Handle)
      → contains hs h ≡ false
      → AllLive s (h ∷ hs)
      → AllLive (remove h s) hs
  unfolding contains
  AllLive-remove s h hs n l k e =
      rw (get-remove_other h k s (λ p. ground (arith, ap (contains hs) p))) (l k (ground arith))

  pub remove_all_lem :
      (hs : List Handle) (s : SocketSet)
      → Distinct hs
      → AllLive s hs
      → (s' : SocketSet) × ((remove_all smol hs s ≡ some s')
          × ((h : Handle) → get s' h ≡ (if contains hs h then none else get s h)))
  unfolding contains remove_all
  remove_all_lem [] s d l = (s, (refl, λ h. refl))
  remove_all_lem (k ∷ hs) s d l =
      let (s', (e, g)) = remove_all_lem hs (remove k s) d.1 (AllLive-remove s k hs d.0 l) in
      (
        s',
        (
          rw (AllLive-head s k hs l) e,
          λ h. elim (Bool-cases (k == h)) [
            | inl p ↦
                rw p (g h ∙ (let q = (==_iff k h).0 p in rw (sym q) (rw d.0 (get-remove_self k s))))
            | inr n ↦ rw n (rw (sym (get-remove_other k h s (λ p. ground (arith, p, n)))) (g h))
          ],
        ),
      )
