-- ===== src/HostIngress/Gateway.antt =====
-- The sessions of vm-frontend/src/host_ingress.rs on the gateway of vm-frontend/src/vmnet_gateway.rs.
use wrapper.Common.{
  ℕ, ◌≡◌, ◌≢◌, refl, Bytes, Option, List, [], ◌++◌, ◌==◌, ==_iff, if◌then◌else◌, take, ◌⊎◌, inl,
  inr, Bool-cases, ⊎-cases, Option-cases, none, some,
}
use wrapper.Run.{panic, err, ok, Run-cases}
use wrapper.Policy.{Nets, VmnetPolicy}
use wrapper.L2.{Ipv4}
use wrapper.Dns.{Messages}
use wrapper.GuestTcp.Sockets.{Handle, Parsers, SmolTcp}
use wrapper.GuestTcp.{GuestTcpConnectError}
use wrapper.VmnetGateway.{VmnetGateway}
use wrapper.VmnetGateway.Sessions.{
  connect_host_to_guest, recv_tcp_session, send_tcp_session_partial, close_tcp_session,
}
use wrapper.HostIngress.{SessionGateway, default_buffer_limits}
use wrapper.HostIngress.Account.{SessionGatewayLaws, SendKeeps, ReceiveKeeps, Others, Connects}
use wrapper.HostIngress.Bridge.{HostIngressBridge}
use wrapper.HostIngress.Table.{TableConserved}
use wrapper.HostIngress.Reached.{Reach, Reach-TableConserved}

-- The error of a call, or its panic, which ends the program.
pub data Stopped (E : Type 0) : Type 0 where
  failed : E → Stopped E
  panicked : Stopped E

-- More bytes of a session.
abbrev log : Handle → Bytes → (Handle → Bytes) → Handle → Bytes
log h bytes account k = if k == h then account k ++ bytes else account k

abbrev cleared : Handle → (Handle → Bytes) → Handle → Bytes
cleared h account k = if k == h then [] else account k

log_self : (h : Handle) (bytes : Bytes) (a : Handle → Bytes) → log h bytes a h ≡ a h ++ bytes
log_self h bytes a = rw ((==_iff h h).1 refl) refl

log_other : (h k : Handle) (bytes : Bytes) (a : Handle → Bytes) → k ≢ h → log h bytes a k ≡ a k
log_other h k bytes a n = elim (Bool-cases (k == h)) [
  | inl e ↦ absurd (n ((==_iff k h).0 e))
  | inr e ↦ rw e refl
]

cleared_self : (h : Handle) (a : Handle → Bytes) → cleared h a h ≡ []
cleared_self h a = rw ((==_iff h h).1 refl) refl

cleared_other : (h k : Handle) (a : Handle → Bytes) → k ≢ h → cleared h a k ≡ a k
cleared_other h k a n = elim (Bool-cases (k == h)) [
  | inl e ↦ absurd (n ((==_iff k h).0 e))
  | inr e ↦ rw e refl
]

module _ (smol : SmolTcp) (parsers : Parsers) (nets : Nets) (messages : Messages)
    (policy : VmnetPolicy nets.Net) (from_str : Bytes → Option Ipv4) where
  open smol use {Instant}

  -- The gateway, the time of the calls, and per handle what `send_tcp_session_partial` has taken and
  -- what `recv_tcp_session` has given since the session was opened.
  pub record Recorded : Type 0 where
    pub now : Instant
    pub gateway : VmnetGateway smol parsers nets messages
    pub taken : Handle → Bytes
    pub given : Handle → Bytes

  unfoldable pub recorded_connect :
      ℕ → ℕ → Recorded → (GuestTcpConnectError smol.ConnectError ⊎ (Handle × List Bytes)) × Recorded
  recorded_connect guest_port local_port r =
      elim (connect_host_to_guest smol parsers nets messages policy from_str guest_port local_port
        r.now r.gateway) [
          | inl e ↦ (inl e, r)
          | inr ((handle, frames), g) ↦ (
            inr (handle, frames),
            record r {
              gateway = g;
              taken = cleared handle r.taken;
              given = cleared handle r.given;
            },
          )
        ]

  unfoldable pub recorded_send :
      Handle → Bytes → Recorded → (Stopped smol.SendError ⊎ (ℕ × List Bytes)) × Recorded
  recorded_send handle bytes r =
      elim (send_tcp_session_partial smol parsers nets messages policy from_str handle bytes r.now
        r.gateway) [
          | panic ↦ (inl panicked, r)
          | err e ↦ (inl (failed e), r)
          | ok ((n, frames), g) ↦
              (inr (n, frames), record r { gateway = g; taken = log handle (take n bytes) r.taken })
        ]

  unfoldable pub recorded_receive : Handle → Recorded → (Stopped smol.RecvError ⊎ Bytes) × Recorded
  recorded_receive handle r =
      elim (recv_tcp_session smol parsers nets messages policy from_str handle r.gateway) [
        | panic ↦ (inl panicked, r)
        | err e ↦ (inl (failed e), r)
        | ok (bytes, g) ↦ (inr bytes, record r { gateway = g; given = log handle bytes r.given })
      ]

  -- A panic sends no frames.
  unfoldable pub recorded_close : Handle → Recorded → List Bytes × Recorded
  recorded_close handle r =
      elim (close_tcp_session smol parsers nets messages policy from_str handle r.now r.gateway) [
        | none ↦ ([], r)
        | some (frames, g) ↦ (frames, record r { gateway = g })
      ]

  abbrev pub vmnet_sessions : SessionGateway
  vmnet_sessions = record {
    Gateway = Recorded;
    RecvError = Stopped smol.RecvError;
    SendError = Stopped smol.SendError;
    ConnectError = GuestTcpConnectError smol.ConnectError;
    connect = recorded_connect;
    send = recorded_send;
    receive = recorded_receive;
    close = recorded_close;
    sent = λ h r. r.taken h;
    got = λ h r. r.given h;
  }

  recorded_send_lem :
      (h : Handle) (bytes : Bytes) (r : Recorded)
      → SendKeeps vmnet_sessions h bytes r (recorded_send h bytes r).0 (recorded_send h bytes r).1
        × Others vmnet_sessions h r (recorded_send h bytes r).1
  unfolding recorded_send
  recorded_send_lem h bytes r =
      elim (Run-cases (
        send_tcp_session_partial smol parsers nets messages policy from_str h bytes r.now
          r.gateway)) [
            | inl e ↦ rw (recorded_send, e) ((refl, refl), λ k n. (refl, refl))
            | inr (inl (x, e)) ↦ rw (recorded_send, e) ((refl, refl), λ k n. (refl, refl))
            | inr (inr (((m, frames), g), e)) ↦
                rw (recorded_send, e)
                  (
                    (log_self h (take m bytes) r.taken, refl),
                    λ k n. (log_other h k (take m bytes) r.taken n, refl),
                  )
          ]

  recorded_receive_lem :
      (h : Handle) (r : Recorded)
      → ReceiveKeeps vmnet_sessions h r (recorded_receive h r).0 (recorded_receive h r).1
        × Others vmnet_sessions h r (recorded_receive h r).1
  unfolding recorded_receive
  recorded_receive_lem h r =
      elim (Run-cases (recv_tcp_session smol parsers nets messages policy from_str h r.gateway)) [
        | inl e ↦ rw (recorded_receive, e) ((refl, refl), λ k n. (refl, refl))
        | inr (inl (x, e)) ↦ rw (recorded_receive, e) ((refl, refl), λ k n. (refl, refl))
        | inr (inr ((bytes, g), e)) ↦
            rw (recorded_receive, e)
              ((refl, log_self h bytes r.given), λ k n. (refl, log_other h k bytes r.given n))
      ]

  recorded_close_lem :
      (h : Handle) (r : Recorded) → Others vmnet_sessions h r (recorded_close h r).1
  unfolding recorded_close
  recorded_close_lem h r =
      elim (Option-cases
        (close_tcp_session smol parsers nets messages policy from_str h r.now r.gateway)) [
          | inl e ↦ rw (recorded_close, e) (λ k n. (refl, refl))
          | inr (x, e) ↦ rw (recorded_close, e) (λ k n. (refl, refl))
        ]

  recorded_connect_lem :
      (guest_port local_port : ℕ) (r : Recorded)
      → Connects vmnet_sessions r
          (recorded_connect guest_port local_port r).0
          (recorded_connect guest_port local_port r).1
  unfolding recorded_connect
  recorded_connect_lem guest_port local_port r =
      elim (⊎-cases (
        connect_host_to_guest smol parsers nets messages policy from_str guest_port local_port r.now
          r.gateway)) [
            | inl (x, e) ↦ rw (recorded_connect, e) (λ k. (refl, refl))
            | inr (((h, frames), g), e) ↦
                rw (recorded_connect, e)
                  (
                    cleared_self h r.taken,
                    (
                      cleared_self h r.given,
                      λ k n. (cleared_other h k r.taken n, cleared_other h k r.given n),
                    ),
                  )
          ]

  vmnet_sessions_laws : SessionGatewayLaws vmnet_sessions
  vmnet_sessions_laws = record {
    send-SendKeeps = λ h bytes r. (recorded_send_lem h bytes r).0;
    receive-ReceiveKeeps = λ h r. (recorded_receive_lem h r).0;
    send-Others = λ h bytes r. (recorded_send_lem h bytes r).1;
    receive-Others = λ h r. (recorded_receive_lem h r).1;
    close-Others = recorded_close_lem;
    connect-Connects = recorded_connect_lem;
  }

  -- On the calls of VmnetGateway, for any sockets, where a call that panics counts as one that fails,
  -- and whatever the connections do: after any sequence of opened sessions, rounds and other changes of
  -- the gateway from a new bridge, in every session of the table and in each direction, what has
  -- arrived followed by what is pending is what was given, and the pending bytes are within the
  -- default limit. To the guest, what has arrived is what send_tcp_session_partial has taken; from it,
  -- what was given is what recv_tcp_session returned.
  pub vmnet_sessions-TableConserved :
      {bridge : HostIngressBridge} {r : Recorded}
      → Reach vmnet_sessions bridge r
      → TableConserved vmnet_sessions default_buffer_limits bridge.sessions r
  vmnet_sessions-TableConserved reach =
      Reach-TableConserved vmnet_sessions vmnet_sessions_laws reach
