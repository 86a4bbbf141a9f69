-- ===== src/VmnetService/Submit.antt =====
-- `submit` and `cancel_pending` of `VmnetServiceOwner` in vm-frontend/src/vmnet_service_io.rs.
use wrapper.Common.{
  ℕ, ◌+◌, ◌%◌, ◌^◌, ◌<◌, ◌≤◌, ◌≡◌, refl, some, [], ◌∷◌, ◌++◌, ◌==◌, leb, length, length-append,
  arith, if◌then◌else◌, ◌⊎◌, inl, inr, Bool-cases,
}
use wrapper.Run.{Run, err, ok}
use wrapper.Dns.{Messages}
use wrapper.VmnetService.Queues.{
  VmnetServiceToken, has_token, insert_pending, VmnetServiceIoQueues, owner_send,
}
use wrapper.VmnetService.Table.{lookup, Below, Below-mono, has_token-Below}
use wrapper.VmnetService.{VmnetServiceCommand}
use wrapper.VmnetService.Owner.{VmnetServiceOwner, VmnetServiceSubmitFull, submit}

abbrev pub Bounded {ℓ} : {A B : Type ℓ} → VmnetServiceIoQueues A B → Type 0
Bounded q =
    (length q.commands ≤ q.command_capacity) × (length q.completions ≤ q.completion_capacity)

module _ (messages : Messages) {P C : Type 0} where
  -- The pending tokens are different and issued, and the queues are within their capacities.
  abbrev pub IsValid : VmnetServiceOwner messages P C → Type 0
  IsValid owner = Below owner.tokens.next owner.pending × Bounded owner.queues

  module _ (p : P) (build_command : P → VmnetServiceToken → VmnetServiceCommand messages)
      (owner : VmnetServiceOwner messages P C) where
    -- The next token is in use for the item, its command is the last one, and nothing else is
    -- changed.
    abbrev pub Submitted : VmnetServiceOwner messages P C → Type 0
    Submitted owner' =
        (owner'.tokens.next ≡ owner.tokens.next + 1)
        × ((owner'.queues ≡ record owner.queues {
          commands = owner.queues.commands ++ build_command p owner.tokens.next ∷ [];
        })
            × ((k : ℕ)
                → lookup k owner'.pending
                  ≡ (if owner.tokens.next == k then some p else lookup k owner.pending)))

    -- The command queue is full, the item and the command come back, and only a token is spent.
    abbrev pub Rejected :
        VmnetServiceSubmitFull messages P → VmnetServiceOwner messages P C → Type 0
    Rejected full owner' =
        (length owner.queues.commands ≡ owner.queues.command_capacity)
        × ((full ≡ record {
          capacity = owner.queues.command_capacity;
          pending = p;
          command = build_command p owner.tokens.next;
        })
            × ((owner'.tokens.next ≡ owner.tokens.next + 1)
                × ((owner'.pending ≡ owner.pending) × (owner'.queues ≡ owner.queues))))

    abbrev pub SubmitResult :
        Run
          (VmnetServiceSubmitFull messages P × VmnetServiceOwner messages P C)
          (VmnetServiceToken × VmnetServiceOwner messages P C)
        → Type 0
    SubmitResult r =
        ((full : _) × ((owner' : _) × ((r ≡ err (full, owner'))
              × (Rejected full owner' × IsValid owner'))))
        ⊎ ((owner' : _) × ((r ≡ ok (owner.tokens.next, owner'))
              × (Submitted owner' × IsValid owner')))

    -- For a valid owner with a token left to issue: submit never finds its new token in use. Either
    -- the command queue is full, the item and the command come back and only a token is spent, or the
    -- item is pending under the new token, its command stands last in the queue, and the other pending
    -- items are as they were. The owner is valid after it.
    pub submit_lem :
        IsValid owner
        → owner.tokens.next + 1 < 2 ^ 64
        → SubmitResult (submit messages p build_command owner)
    unfolding submit insert_pending owner_send has_token
    submit_lem v n =
        let w : (owner.tokens.next + 1) % 2 ^ 64 ≡ owner.tokens.next + 1 = omega arith in
        let fresh = has_token-Below owner.pending owner.tokens.next (omega arith) v.0 in
        elim (Bool-cases (leb owner.queues.command_capacity (length owner.queues.commands))) [
          | inl f ↦ inl (
            record {
              capacity = owner.queues.command_capacity;
              pending = p;
              command = build_command p owner.tokens.next;
            },
            (
              record owner { tokens = record { next = owner.tokens.next + 1 } },
              (
                rw (submit, owner_send, f, w) refl,
                (
                  (ground (arith, v.1.0, f), (refl, (refl, (refl, refl)))),
                  (Below-mono owner.pending (omega arith) v.0, v.1),
                ),
              ),
            ),
          )
          | inr f ↦ inr (
            record {
              tokens = record { next = owner.tokens.next + 1 };
              pending = (owner.tokens.next, p) ∷ owner.pending;
              queues = record owner.queues {
                commands = owner.queues.commands ++ build_command p owner.tokens.next ∷ [];
              };
            },
            (
              rw (submit, owner_send, f, insert_pending, fresh, w) refl,
              (
                (refl, (refl, λ k. refl)),
                (
                  (omega arith, (fresh, Below-mono owner.pending (omega arith) v.0)),
                  (
                    ground (
                      arith,
                      f,
                      length-append owner.queues.commands (build_command p owner.tokens.next ∷ []),
                    ),
                    v.1.1,
                  ),
                ),
              ),
            ),
          )
        ]
