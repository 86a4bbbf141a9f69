-- ===== src/HostIngress/Accept.antt =====
-- How vm-frontend/src/host_ingress.rs takes connections of the host: the accept loop of a listener
-- and the bounded queue of accepted connections.
use wrapper.Common.{
  ℕ, zero, suc, Option, none, some, List, [], ◌∷◌, ◌++◌, String, length, get_elem?, leb, ltb, ◌==◌,
  if◌then◌else◌, ◌⊎◌, inl, inr,
}
use wrapper.Policy.{HostListener, HostListenerPurpose}

pub record AcceptedHostConnection {ℓ} (C : Type ℓ) : Type ℓ where
  pub guest_port : ℕ
  pub purpose : HostListenerPurpose
  pub connection : C

pub record HostIngressAcceptedQueue {ℓ} (C : Type ℓ) : Type ℓ where
  pub capacity : ℕ
  pub queue : List (AcceptedHostConnection C)

pub record HostIngressAcceptLimit : Type 0 where
  pub listener_index : ℕ
  pub guest_port : ℕ
  pub purpose : HostListenerPurpose
  pub limit : ℕ
  pub accepted : ℕ

-- `std::io::Result`.
abbrev pub IoResult {ℓ} : Type ℓ → Type ℓ
IoResult A = String ⊎ A

pub record HostIngressAcceptBatch {ℓ} (C : Type ℓ) : Type ℓ where
  pub accepted : List (IoResult (AcceptedHostConnection C))
  pub limit_reached : Option HostIngressAcceptLimit

-- What a call of `accept` on the listener does; a connection may refuse `set_nonblocking`.
pub data AcceptOutcome {ℓ} (C : Type ℓ) : Type ℓ where
  connected : C → AcceptOutcome C
  not_nonblocking : String → AcceptOutcome C
  accept_would_block : AcceptOutcome C
  accept_error : String → AcceptOutcome C

module _ {ℓ} {C : Type ℓ} where
  -- `none` is the panic of the assertion.
  abbrev pub new_queue : ℕ → Option (HostIngressAcceptedQueue C)
  new_queue capacity =
      if ltb 0 capacity then some (record { capacity = capacity; queue = [] }) else none

  unfoldable pub push_accepted :
      AcceptedHostConnection C
      → HostIngressAcceptedQueue C
      → AcceptedHostConnection C ⊎ HostIngressAcceptedQueue C
  push_accepted accepted q =
      if leb q.capacity (length q.queue)
      then inl accepted
      else inr (record q { queue = q.queue ++ accepted ∷ [] })

  -- With the queue after the call.
  abbrev pub drain_ready :
      HostIngressAcceptedQueue C → List (AcceptedHostConnection C) × HostIngressAcceptedQueue C
  drain_ready q = (q.queue, record q { queue = [] })

  -- The loop of `accept_ready_limited`, on the calls that the listener will answer (an exhausted list
  -- blocks), the rounds left, and what is accepted so far.
  unfoldable pub accept_loop :
      HostListener
      → List (AcceptOutcome C)
      → ℕ
      → List (IoResult (AcceptedHostConnection C))
      → List (IoResult (AcceptedHostConnection C)) × List (AcceptOutcome C)
  accept_loop config [] left accepted = (accepted, [])
  accept_loop config (o ∷ script) zero accepted = (accepted, o ∷ script)
  accept_loop config (connected c ∷ script) (suc left) accepted = accept_loop config script left (
      accepted
      ++ inr (record { guest_port = config.guest_port; purpose = config.purpose; connection = c })
        ∷ [])
  accept_loop config (not_nonblocking e ∷ script) (suc left) accepted =
      accept_loop config script left (accepted ++ inl e ∷ [])
  accept_loop config (accept_would_block ∷ script) (suc left) accepted = (accepted, script)
  accept_loop config (accept_error e ∷ script) (suc left) accepted =
      (accepted ++ inl e ∷ [], script)

  -- With what the later calls of the listener will do.
  unfoldable pub accept_ready_limited :
      List HostListener
      → ℕ
      → List (AcceptOutcome C)
      → ℕ
      → HostIngressAcceptBatch C × List (AcceptOutcome C)
  unfolding accept_loop
  accept_ready_limited listeners listener_index script max_accepts =
      elim (get_elem? listeners listener_index) [
        | none ↦ (record { accepted = []; limit_reached = none }, script)
        | some config ↦
            let (accepted, rest) = accept_loop config script max_accepts [] in
            (
              record {
                accepted = accepted;
                limit_reached =
                    if length accepted == max_accepts
                    then some (record {
                      listener_index = listener_index;
                      guest_port = config.guest_port;
                      purpose = config.purpose;
                      limit = max_accepts;
                      accepted = length accepted;
                    })
                    else none;
              },
              rest,
            )
      ]
