-- ===== src/GuestTcp/Sessions.antt =====
-- The sessions of `GuestTcpCore` in vm-frontend/src/guest_tcp.rs: what they receive and send, and
-- how the closed ones are taken away.
use wrapper.Common.{
  ℕ, zero, suc, ◌+◌, true, false, Option, none, some, List, [], ◌∷◌, ◌++◌, map, Bytes, length,
  if◌then◌else◌, inl, inr, is_some,
}
use wrapper.Fetch.{Fetch, panic, absent, present}
use wrapper.Run.{Run, ok, err}
use wrapper.GuestTcp.Sockets.{Handle, is_closed, SmolTcp}
use wrapper.GuestTcp.{
  GuestTcpCore, GuestTcpSession, GuestTcpSessionRef, GuestTcpReap, retain, listener_handle,
  connection_handle,
}

module _ (smol : SmolTcp) where
  open smol use {
    Socket, SocketSet, RecvError, SendError, get, put, remove, state, local_endpoint,
    remote_endpoint, can_recv, recv, recv_buffer, send_slice, close,
  }

  -- `GuestTcpCore::session`.
  unfoldable pub session : SocketSet → Handle → Fetch (GuestTcpSession smol)
  session s handle = elim (get s handle) [
    | none ↦ panic
    | some socket ↦ elim (local_endpoint socket) [
      | none ↦ absent
      | some local ↦ elim (remote_endpoint socket) [
        | none ↦ absent
        | some remote ↦
            present (record { session_state = state socket; local = local; remote = remote })
      ]
    ]
  ]

  -- `filter_map` of the slots that have a session; `none` is the panic.
  unfoldable pub sessions {ℓ} :
      {A : Type ℓ} → (A → Handle) → SocketSet → List A → Option (List (GuestTcpSessionRef smol))
  unfolding session
  sessions handle_of s [] = some []
  sessions handle_of s (slot ∷ slots) = elim (session s (handle_of slot)) [
    | panic ↦ none
    | absent ↦ sessions handle_of s slots
    | present x ↦ elim (sessions handle_of s slots) [
      | none ↦ none
      | some xs ↦ some (record { handle = handle_of slot; session = x } ∷ xs)
    ]
  ]

  unfoldable pub active_sessions : GuestTcpCore smol → Option (List (GuestTcpSessionRef smol))
  unfolding sessions
  active_sessions core = sessions listener_handle core.sockets core.listeners

  unfoldable pub host_ingress_sessions : GuestTcpCore smol → Option (List (GuestTcpSessionRef smol))
  unfolding sessions
  host_ingress_sessions core = sessions connection_handle core.sockets core.host_connections

  -- The loop of `recv_available` on the data received so far, with fuel; running out of it counts
  -- as a panic.
  unfoldable pub recv_loop : ℕ → Bytes → Socket → Run RecvError (Bytes × Socket)
  recv_loop zero received socket = Run.panic
  recv_loop (suc fuel) received socket = elim (can_recv socket) [
    | false ↦ ok (received, socket)
    | true ↦ elim (recv socket) [
      | inl e ↦ err e
      | inr ([], socket') ↦ ok (received, socket')
      | inr (b ∷ bs, socket') ↦ recv_loop fuel (received ++ b ∷ bs) socket'
    ]
  ]

  -- A round takes a byte at least, so the buffer's length bounds the rounds.
  unfoldable pub recv_available :
      Handle → GuestTcpCore smol → Run RecvError (Bytes × GuestTcpCore smol)
  unfolding recv_loop
  recv_available handle core = elim (get core.sockets handle) [
    | none ↦ Run.panic
    | some socket ↦ elim (recv_loop (length (recv_buffer socket) + 1) [] socket) [
      | Run.panic ↦ Run.panic
      | err e ↦ err e
      | ok (received, socket') ↦
          ok (received, record core { sockets = put handle socket' core.sockets })
    ]
  ]

  unfoldable pub send_to_session :
      Handle → Bytes → GuestTcpCore smol → Run SendError (ℕ × GuestTcpCore smol)
  send_to_session handle bytes core = elim (get core.sockets handle) [
    | none ↦ Run.panic
    | some socket ↦ elim (send_slice bytes socket) [
      | inl e ↦ err e
      | inr (n, socket') ↦ ok (n, record core { sockets = put handle socket' core.sockets })
    ]
  ]

  unfoldable pub close_session : Handle → GuestTcpCore smol → Option (GuestTcpCore smol)
  close_session handle core = elim (get core.sockets handle) [
    | none ↦ none
    | some socket ↦ some (record core { sockets = put handle (close socket) core.sockets })
  ]

  -- `closed_handles`: the handles whose sockets are closed, where none of them panics.
  unfoldable pub closed_handles : SocketSet → List Handle → Option (List Handle)
  closed_handles s [] = some []
  closed_handles s (h ∷ hs) = elim (get s h) [
    | none ↦ none
    | some socket ↦ elim (closed_handles s hs) [
      | none ↦ none
      | some ks ↦ some (if is_closed (state socket) then h ∷ ks else ks)
    ]
  ]

  -- `remove` of each of the handles, which panics on a handle that is not there.
  unfoldable pub remove_all : List Handle → SocketSet → Option SocketSet
  remove_all [] s = some s
  remove_all (h ∷ hs) s = if is_some (get s h) then remove_all hs (remove h s) else none

  unfoldable pub reap_closed_sessions :
      GuestTcpCore smol → Option (GuestTcpReap × GuestTcpCore smol)
  unfolding retain closed_handles remove_all
  reap_closed_sessions core =
      elim (closed_handles core.sockets (map listener_handle core.listeners)) [
        | none ↦ none
        | some ls ↦
            elim (closed_handles core.sockets (map connection_handle core.host_connections)) [
              | none ↦ none
              | some hs ↦ elim (remove_all (ls ++ hs) core.sockets) [
                | none ↦ none
                | some sockets ↦ some (
                  record { listener_sessions = length ls; host_connections = length hs },
                  record core {
                    sockets = sockets;
                    listeners = retain listener_handle ls core.listeners;
                    host_connections = retain connection_handle hs core.host_connections;
                  },
                )
              ]
            ]
      ]
