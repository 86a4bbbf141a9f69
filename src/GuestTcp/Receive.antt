-- ===== src/GuestTcp/Receive.antt =====
-- `recv_available` of vm-frontend/src/guest_tcp.rs hands out all that a session has received.
use wrapper.Common.{
  ℕ, zero, suc, ◌+◌, ◌<◌, ◌≡◌, refl, ap, ◌∙◌, false, some, [], ◌∷◌, ◌++◌, append-nil, append_assoc,
  Bytes, arith, inl, inr, Bool-cases, length, length-append,
}
use wrapper.Run.{Run, ok}
use wrapper.GuestTcp.Sockets.{Handle, SmolTcp, SmolTcpLaws}
use wrapper.GuestTcp.{GuestTcpCore}
use wrapper.GuestTcp.Sessions.{recv_loop, recv_available}

module _ (smol : SmolTcp) (laws : SmolTcpLaws smol) where
  open smol use {Socket, SocketSet, RecvError, get, can_recv, recv, recv_buffer}
  open laws use {get-put_self, recv-can_recv}

  -- The data received after `acc`, and the socket that is left: with what it still holds they are
  -- what the socket held, and it has nothing more to receive.
  abbrev LoopReceived : Bytes → Socket → Run RecvError (Bytes × Socket) → Type 0
  LoopReceived acc c r =
      (bs : Bytes) × ((c' : Socket) × ((r ≡ ok (acc ++ bs, c'))
          × ((bs ++ recv_buffer c' ≡ recv_buffer c) × (can_recv c' ≡ false))))

  recv_loop-Received :
      (fuel : ℕ) (acc : Bytes) (c : Socket)
      → length (recv_buffer c) < fuel
      → LoopReceived acc c (recv_loop smol fuel acc c)
  unfolding recv_loop
  recv_loop-Received zero acc c h = elim h [ ]
  recv_loop-Received (suc fuel) acc c h = elim (Bool-cases (can_recv c)) [
    | inr e ↦ ([], (c, (rw (recv_loop, e, append-nil acc) refl, (refl, e))))
    | inl e ↦
        let (b, (bs, (c', (r, q)))) = recv-can_recv c e in
        let (rest, (c'', (p, (a, n)))) =
          recv_loop-Received fuel (acc ++ b ∷ bs) c'
            (omega (arith, h, ap length q, length-append bs (recv_buffer c'))) in
        (
          b ∷ (bs ++ rest),
          (
            c'',
            (
              rw (recv_loop, e, r, p) (ap (λ t. ok (t, c'')) (append_assoc acc (b ∷ bs) rest)),
              (
                ap (λ t. b ∷ t) (append_assoc bs rest (recv_buffer c'') ∙ ap (λ t. bs ++ t) a) ∙ q,
                n,
              ),
            ),
          ),
        )
  ]

  -- For a handle whose socket is in the set: recv_available succeeds within its fuel, without a panic
  -- or an error, what it returns and what the socket still holds are what the socket held before, in
  -- order, and the socket has nothing more to receive.
  pub recv_available-Received :
      (h : Handle) (core : GuestTcpCore smol) (c : Socket)
      → get core.sockets h ≡ some c
      → (bytes : Bytes) × ((core' : GuestTcpCore smol) × ((c' : Socket) × ((recv_available smol h
                  core
                ≡ ok (bytes, core'))
              × ((get core'.sockets h ≡ some c')
                  × ((bytes ++ recv_buffer c' ≡ recv_buffer c) × (can_recv c' ≡ false))))))
  unfolding recv_available
  recv_available-Received h core c e =
      let (bs, (c', (p, (a, n)))) =
        recv_loop-Received (length (recv_buffer c) + 1) [] c (omega arith) in
      (
        bs,
        (
          record core { sockets = smol.put h c' core.sockets },
          (
            c',
            (rw (recv_available, e, p) refl, (get-put_self h c' core.sockets (rw e refl), (a, n))),
          ),
        ),
      )
