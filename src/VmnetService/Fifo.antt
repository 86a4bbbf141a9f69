-- ===== src/VmnetService/Fifo.antt =====
-- `VmnetServiceIoQueues` of vm-frontend/src/vmnet_service_io.rs is a bounded first-in first-out
-- queue in both directions, whatever the order of the calls.
use wrapper.Common.{
  ◌≡◌, refl, sym, ap, ◌∙◌, Option, none, some, List, [], ◌∷◌, ◌++◌, append_assoc, leb, length,
  length-append, arith, ◌⊎◌, inl, inr, Bool-cases,
}
use wrapper.VmnetService.Queues.{
  VmnetServiceIoQueues, owner_send, service_recv_command, service_complete, owner_recv_completion,
}
use wrapper.VmnetService.Submit.{Bounded}

List-cases {ℓ} :
    {A : Type ℓ} (xs : List A) → (xs ≡ []) ⊎ ((x : A) × ((rest : List A) × (xs ≡ x ∷ rest)))
List-cases [] = inl refl
List-cases (x ∷ rest) = inr (x, (rest, refl))

module _ {ℓ} (A B : Type ℓ) where
  pub data QueueCall : Type ℓ where
    send : A → QueueCall
    take_command : QueueCall
    finish : B → QueueCall
    take_completion : QueueCall

  -- What the calls have put into the queues and taken out, each in the order of the calls.
  pub record QueueLog : Type ℓ where
    pub sent : List A
    pub taken : List A
    pub finished : List B
    pub collected : List B

  abbrev pub empty_log : QueueLog
  empty_log = record { sent = []; taken = []; finished = []; collected = [] }

  abbrev add_some {κ} : {T : Type κ} → List T → Option T → List T
  add_some xs none = xs
  add_some xs (some x) = xs ++ x ∷ []

  -- One call, which a full queue refuses.
  unfoldable pub call_queue :
      QueueCall → VmnetServiceIoQueues A B × QueueLog → VmnetServiceIoQueues A B × QueueLog
  unfolding owner_send service_complete
  call_queue (send command) (q, log) = elim (owner_send command q) [
    | inl full ↦ (q, log)
    | inr q' ↦ (q', record log { sent = log.sent ++ command ∷ [] })
  ]
  call_queue take_command (q, log) =
      let (command, q') = service_recv_command q in
      (q', record log { taken = add_some log.taken command })
  call_queue (finish completion) (q, log) = elim (service_complete completion q) [
    | inl full ↦ (q, log)
    | inr q' ↦ (q', record log { finished = log.finished ++ completion ∷ [] })
  ]
  call_queue take_completion (q, log) =
      let (completion, q') = owner_recv_completion q in
      (q', record log { collected = add_some log.collected completion })

  unfoldable pub call_all :
      List QueueCall → VmnetServiceIoQueues A B × QueueLog → VmnetServiceIoQueues A B × QueueLog
  unfolding call_queue
  call_all [] s = s
  call_all (c ∷ cs) s = call_all cs (call_queue c s)

  -- What was sent is what was taken and then what waits, and no queue is over its capacity.
  abbrev pub Fifo : VmnetServiceIoQueues A B × QueueLog → Type ℓ
  Fifo s =
      (s.1.sent ≡ s.1.taken ++ s.0.commands)
      × ((s.1.finished ≡ s.1.collected ++ s.0.completions) × Bounded s.0)

  call_queue-Fifo :
      (c : QueueCall) (s : VmnetServiceIoQueues A B × QueueLog) → Fifo s → Fifo (call_queue c s)
  unfolding call_queue owner_send service_complete
  call_queue-Fifo (send command) (q, log) (a, (b, d)) =
      elim (Bool-cases (leb q.command_capacity (length q.commands))) [
        | inl f ↦ rw (call_queue, owner_send, f) (a, (b, d))
        | inr f ↦
            rw (call_queue, owner_send, f)
              (
                ap (λ t. t ++ command ∷ []) a ∙ append_assoc log.taken q.commands (command ∷ []),
                (b, (ground (arith, f, length-append q.commands (command ∷ [])), d.1)),
              )
      ]
  call_queue-Fifo (finish completion) (q, log) (a, (b, d)) =
      elim (Bool-cases (leb q.completion_capacity (length q.completions))) [
        | inl f ↦ rw (call_queue, service_complete, f) (a, (b, d))
        | inr f ↦
            rw (call_queue, service_complete, f)
              (
                a,
                (
                  ap (λ t. t ++ completion ∷ []) b
                      ∙ append_assoc log.collected q.completions (completion ∷ []),
                  (d.0, ground (arith, f, length-append q.completions (completion ∷ []))),
                ),
              )
      ]
  call_queue-Fifo take_command (q, log) (a, (b, d)) = elim (List-cases q.commands) [
    | inl e ↦ (ground (arith, e, a), (ground (arith, e, b), ground (arith, e, d)))
    | inr (x, (rest, e)) ↦ (
      ground (arith, e, a, append_assoc log.taken (x ∷ []) rest),
      (ground (arith, e, b), ground (arith, e, d)),
    )
  ]
  call_queue-Fifo take_completion (q, log) (a, (b, d)) = elim (List-cases q.completions) [
    | inl e ↦ (ground (arith, e, a), (ground (arith, e, b), ground (arith, e, d)))
    | inr (x, (rest, e)) ↦ (
      ground (arith, e, a),
      (ground (arith, e, b, append_assoc log.collected (x ∷ []) rest), ground (arith, e, d)),
    )
  ]

  call_all-Fifo :
      (cs : List QueueCall) (s : VmnetServiceIoQueues A B × QueueLog)
      → Fifo s
      → Fifo (call_all cs s)
  unfolding call_all
  call_all-Fifo [] s f = f
  call_all-Fifo (c ∷ cs) s f = call_all-Fifo cs (call_queue c s) (call_queue-Fifo c s f)

  -- From empty queues, after any sequence of calls: the commands that were accepted are those that the
  -- service has taken, in the same order, and then those that wait; the same holds of the completions;
  -- and neither queue is over its capacity.
  pub call_all_lem :
      (cs : List QueueCall) (q : VmnetServiceIoQueues A B)
      → q.commands ≡ []
      → q.completions ≡ []
      → Fifo (call_all cs (q, empty_log))
  call_all_lem cs q c d =
      call_all-Fifo cs (q, empty_log)
        (sym c, (sym d, (omega (arith, ap length c), omega (arith, ap length d))))
