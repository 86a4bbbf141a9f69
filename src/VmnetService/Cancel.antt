-- ===== src/VmnetService/Cancel.antt =====
-- `cancel_pending` of `VmnetServiceOwner` in vm-frontend/src/vmnet_service_io.rs.
use wrapper.Common.{
  ℕ, ◌<◌, ◌≡◌, refl, ap, none, some, [], ◌∷◌, ◌++◌, ◌==◌, leb, length, length-append, arith,
  if◌then◌else◌, ◌⊎◌, inl, inr, Bool-cases, Option-cases, ==_iff,
}
use wrapper.Run.{Run, err, ok}
use wrapper.Dns.{Messages}
use wrapper.VmnetService.Queues.{
  VmnetServiceToken, Pending, has_token, insert_pending, remove_pending, owner_send,
}
use wrapper.VmnetService.Table.{
  lookup, Below, Below-remove_pending, remove_pending-lookup, lookup-remove_pending,
  has_token-remove_pending_self,
}
use wrapper.VmnetService.{VmnetServiceCommand, VmnetServiceIoKind, cancel}
use wrapper.VmnetService.Owner.{
  VmnetServiceOwner, VmnetServiceCancelError, not_found, queue_full, cancel_pending,
}
use wrapper.VmnetService.Submit.{IsValid}

lookup-Below {ℓ} :
    {T : Type ℓ} (n token : ℕ) (items : Pending T) (p : T)
    → Below n items
    → lookup token items ≡ some p
    → token < n
lookup-Below n token [] p b e = ground arith
lookup-Below n token ((t, item) ∷ items) p b e = elim (Bool-cases (t == token)) [
  | inl q ↦ ground (arith, q, b.0)
  | inr q ↦ lookup-Below n token items p b.1.1 (ground (arith, q, e))
]

module _ (messages : Messages) {P C : Type 0} (token : VmnetServiceToken)
    (kind : VmnetServiceIoKind) (owner : VmnetServiceOwner messages P C) where
  abbrev command : VmnetServiceCommand messages
  command = cancel (record { token = token; kind = kind })

  -- All pending items and the queues are as they were.
  abbrev pub Unchanged : VmnetServiceOwner messages P C → Type 0
  Unchanged owner' =
      ((k : ℕ) → lookup k owner'.pending ≡ lookup k owner.pending)
      × ((owner'.queues ≡ owner.queues) × (owner'.tokens ≡ owner.tokens))

  -- The item is not pending any more, the command is the last one, the rest is as it was.
  abbrev pub Cancelled : VmnetServiceOwner messages P C → Type 0
  Cancelled owner' =
      ((k : ℕ) → lookup k owner'.pending ≡ (if k == token then none else lookup k owner.pending))
      × ((owner'.queues ≡ record owner.queues { commands = owner.queues.commands ++ command ∷ [] })
          × (owner'.tokens ≡ owner.tokens))

  abbrev pub CancelResult :
      Run
        (VmnetServiceCancelError messages × VmnetServiceOwner messages P C)
        (P × VmnetServiceOwner messages P C)
      → Type 0
  CancelResult r =
      ((owner' : _) × ((r ≡ err (not_found token, owner'))
          × ((lookup token owner.pending ≡ none) × (Unchanged owner' × IsValid messages owner'))))
      ⊎ (((owner' : _) × ((r ≡ err (queue_full owner.queues.command_capacity command, owner'))
              × ((length owner.queues.commands ≡ owner.queues.command_capacity)
                  × (Unchanged owner' × IsValid messages owner'))))
          ⊎ ((p : P) × ((owner' : _) × ((r ≡ ok (p, owner'))
                  × ((lookup token owner.pending ≡ some p)
                      × (Cancelled owner' × IsValid messages owner'))))))

  same_lem :
      IsValid messages owner
      → lookup token owner.pending ≡ none
      → (k : ℕ) → lookup k (remove_pending token owner.pending).1 ≡ lookup k owner.pending
  same_lem v e k =
      let removed = lookup-remove_pending owner.tokens.next k token owner.pending v.0 in
      elim (Bool-cases (k == token)) [
        | inl q ↦
            ground (arith, q, e, removed, ap (λ x. lookup x owner.pending) ((==_iff k token).0 q))
        | inr q ↦ ground (arith, q, removed)
      ]

  restored_lem :
      IsValid messages owner
      → (p : P) → lookup token owner.pending ≡ some p
      → (k : ℕ)
      → lookup k ((token, p) ∷ (remove_pending token owner.pending).1) ≡ lookup k owner.pending
  restored_lem v p e k =
      let removed = lookup-remove_pending owner.tokens.next k token owner.pending v.0 in
      elim (Bool-cases (token == k)) [
        | inl q ↦ ground (arith, q, e, ap (λ x. lookup x owner.pending) ((==_iff token k).0 q))
        | inr q ↦ ground (arith, q, removed)
      ]

  -- For a valid owner: cancelling a token that is not pending reports that, with the command queue
  -- full it reports that and the item is pending again; in both cases every pending item and the queues
  -- are as they were. Otherwise the item comes back, is not pending any more, and its cancel command
  -- stands last in the queue. It does not panic, and the owner is valid after it.
  pub cancel_pending_lem :
      IsValid messages owner → CancelResult (cancel_pending messages token kind owner)
  unfolding cancel_pending insert_pending owner_send has_token
  cancel_pending_lem v =
      let items = (remove_pending token owner.pending).1 in
      let below = Below-remove_pending owner.tokens.next token owner.pending v.0 in
      let gone = has_token-remove_pending_self owner.tokens.next token owner.pending v.0 in
      let found = remove_pending-lookup token owner.pending in
      elim (Option-cases (lookup token owner.pending)) [
        | inl e ↦ inl (
          record owner { pending = items },
          (
            rw (cancel_pending, found, e) refl,
            (e, (((λ k. same_lem v e k), (refl, refl)), (below, v.1))),
          ),
        )
        | inr (p, e) ↦
            elim (Bool-cases (leb owner.queues.command_capacity (length owner.queues.commands))) [
              | inl f ↦ inr (
                  inl (
                    record owner { pending = (token, p) ∷ items },
                    (
                      rw (cancel_pending, found, e, owner_send, f, insert_pending, gone) refl,
                      (
                        ground (arith, v.1.0, f),
                        (
                          ((λ k. restored_lem v p e k), (refl, refl)),
                          (
                            (
                              lookup-Below owner.tokens.next token owner.pending p v.0 e,
                              (gone, below),
                            ),
                            v.1,
                          ),
                        ),
                      ),
                    ),
                  ))
              | inr f ↦ inr (
                  inr (
                    p,
                    (
                      record owner {
                        pending = items;
                        queues = record owner.queues {
                          commands = owner.queues.commands ++ command ∷ [];
                        };
                      },
                      (
                        rw (cancel_pending, found, e, owner_send, f) refl,
                        (
                          e,
                          (
                            (
                              (λ k.
                                  lookup-remove_pending owner.tokens.next k token owner.pending
                                    v.0),
                              (refl, refl),
                            ),
                            (
                              below,
                              (
                                ground
                                    (arith, f, length-append owner.queues.commands (command ∷ [])),
                                v.1.1,
                              ),
                            ),
                          ),
                        ),
                      ),
                    ),
                  ))
            ]
      ]
