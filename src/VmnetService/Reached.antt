-- ===== src/VmnetService/Reached.antt =====
-- Whatever calls the gateway and its workers make of `VmnetServiceOwner`
-- (vm-frontend/src/vmnet_service_io.rs), its queues stay within their capacities and its pending
-- tokens are different.
use wrapper.Common.{
  ℕ, suc, ◌+◌, ◌^◌, ◌%◌, ◌<◌, ◌≡◌, Bool, Option, List, refl, sym, ap, ◌∙◌, subst, [], ◌∷◌, ◌==◌,
  leb, length, length-append, arith, ◌⊎◌, inl, inr, Bool-cases, Option-cases, ⊎-cases,
}
use wrapper.Run.{Run, panic, err, ok}
use wrapper.Dns.{Messages, Exchange}
use wrapper.VmnetService.Queues.{
  VmnetServiceToken, VmnetServiceIoLimits, VmnetServiceIoQueues, VmnetServiceQueueFull, has_token,
  insert_pending, new_queues, validate_limits, service_recv_command, service_complete,
  owner_recv_completion,
}
use wrapper.VmnetService.Table.{Below-remove_pending, Below-mono, has_token-Below}
use wrapper.VmnetService.Worker.{VmnetAsyncServiceDrain, drain_loop, drain_from_async_worker}
use wrapper.VmnetService.{
  VmnetServiceCommand, VmnetServiceCompletion, VmnetServiceIoKind, completion_token, Execution,
  completed, unsupported, execute_dns_service_command,
}
use wrapper.VmnetService.Owner.{
  VmnetServiceOwner, VmnetServiceSubmitFull, VmnetServiceSubmitError, VmnetServiceCancelError,
  new_owner, submit, submit_to, submit_to_async_worker, cancel_pending, recv_command,
  recv_completion, complete, drain_pending, remove_pending_for_completion,
  run_dns_service_owner_step,
}
use wrapper.VmnetService.Submit.{IsValid, Bounded, submit_lem}
use wrapper.VmnetService.Cancel.{cancel_pending_lem}

module _ {ℓ} {A B : Type ℓ} (q : VmnetServiceIoQueues A B) where
  service_recv_command-Bounded : Bounded q → Bounded (service_recv_command q).1
  service_recv_command-Bounded b = ground arith

  owner_recv_completion-Bounded : Bounded q → Bounded (owner_recv_completion q).1
  owner_recv_completion-Bounded b = ground arith

module _ (messages : Messages) (P C : Type 0) where
  abbrev Owner : Type 0
  Owner = VmnetServiceOwner messages P C

  abbrev Command : Type 0
  Command = VmnetServiceCommand messages

  -- A call that issues a token.
  pub data Issue (owner owner' : Owner) : Type 1 where
    submitted :
        (p : P) (build : P → VmnetServiceToken → Command) (token : VmnetServiceToken)
        → submit messages p build owner ≡ ok (token, owner')
        → Issue owner owner'
    refused :
        (p : P) (build : P → VmnetServiceToken → Command) (full : VmnetServiceSubmitFull messages P)
        → submit messages p build owner ≡ err (full, owner')
        → Issue owner owner'
    submitted_to :
        (E W : Type 0) (p : P) (build : P → VmnetServiceToken → Command)
        (enqueue : Command → W → Option E × W) (w w' : W) (token : VmnetServiceToken)
        → submit_to messages p build enqueue owner w ≡ ok (token, (owner', w'))
        → Issue owner owner'
    refused_to :
        (E W : Type 0) (p : P) (build : P → VmnetServiceToken → Command)
        (enqueue : Command → W → Option E × W) (w w' : W) (e : VmnetServiceSubmitError messages P E)
        → submit_to messages p build enqueue owner w ≡ err (e, (owner', w'))
        → Issue owner owner'
    submitted_to_worker :
        (E W : Type 0) (p : P) (build : P → VmnetServiceToken → Command)
        (try_send : Command → W → Option E × W) (w w' : W) (token : VmnetServiceToken)
        → submit_to_async_worker messages p build try_send owner w ≡ ok (token, (owner', w'))
        → Issue owner owner'
    refused_by_worker :
        (E W : Type 0) (p : P) (build : P → VmnetServiceToken → Command)
        (try_send : Command → W → Option E × W) (w w' : W)
        (e : VmnetServiceSubmitError messages P E)
        → submit_to_async_worker messages p build try_send owner w ≡ err (e, (owner', w'))
        → Issue owner owner'

  -- A call that issues none.
  pub data Step (owner owner' : Owner) : Type 1 where
    cancelled_one :
        (token : VmnetServiceToken) (kind : VmnetServiceIoKind) (p : P)
        → cancel_pending messages token kind owner ≡ ok (p, owner')
        → Step owner owner'
    not_cancelled :
        (token : VmnetServiceToken) (kind : VmnetServiceIoKind)
        (e : VmnetServiceCancelError messages)
        → cancel_pending messages token kind owner ≡ err (e, owner')
        → Step owner owner'
    command_taken : owner' ≡ (recv_command messages owner).1 → Step owner owner'
    completion_put :
        (c : VmnetServiceCompletion messages C)
        → complete messages c owner ≡ inr owner'
        → Step owner owner'
    completion_taken : owner' ≡ (recv_completion messages owner).1 → Step owner owner'
    resolved :
        (c : VmnetServiceCompletion messages C)
        → owner' ≡ (remove_pending_for_completion messages c owner).1
        → Step owner owner'
    drained : owner' ≡ (drain_pending messages owner).1 → Step owner owner'
    worker_drained :
        (waiting : List (VmnetServiceCompletion messages C)) (closed : Bool)
        (drain : VmnetAsyncServiceDrain)
        → drain_from_async_worker messages P C waiting closed owner ≡ inr (drain, owner')
        → Step owner owner'
    worker_drained_in_part :
        (waiting rest : List (VmnetServiceCompletion messages C)) (closed : Bool)
        (full : VmnetServiceQueueFull (VmnetServiceCompletion messages C))
        → drain_from_async_worker messages P C waiting closed owner ≡ inl (full, (rest, owner'))
        → Step owner owner'
    dns_stepped :
        (U : Type 0) (exchange : messages.Message → U → Exchange messages × U) (u : U)
        → owner' ≡ (run_dns_service_owner_step messages exchange owner u).1.0
        → Step owner owner'

  -- The owners that are reached with the number of tokens issued.
  pub data Reach (start : Owner) : ℕ → Owner → Type 1 where
    here : Reach start 0 start
    issue :
        {n : ℕ} {owner owner' : Owner}
        → Reach start n owner
        → Issue owner owner'
        → Reach start (suc n) owner'
    step :
        {n : ℕ} {owner owner' : Owner}
        → Reach start n owner
        → Step owner owner'
        → Reach start n owner'

  abbrev Counted : ℕ → Owner → Type 0
  Counted n owner = IsValid messages owner × (owner.tokens.next ≡ n + 1)

  abbrev CountedRun {ℓ κ} : {A : Type ℓ} {B : Type κ} → ℕ → Run (A × Owner) (B × Owner) → Type 0
  CountedRun n panic = Unit {0}
  CountedRun n (err (e, owner)) = Counted n owner
  CountedRun n (ok (a, owner)) = Counted n owner

  abbrev CountedSum {ℓ} : {A : Type ℓ} → ℕ → A ⊎ Owner → Type 0
  CountedSum n (inl e) = Unit {0}
  CountedSum n (inr owner) = Counted n owner

  submit-Counted :
      (n : ℕ) (p : P) (build : P → VmnetServiceToken → Command) (owner : Owner)
      → n + 2 < 2 ^ 64
      → Counted n owner
      → CountedRun (suc n) (submit messages p build owner)
  submit-Counted n p build owner h (v, e) =
      elim (submit_lem messages p build owner v (omega arith)) [
        | inl (full, (owner', (r, ((a, (b, (c, d))), w)))) ↦ rw r (w, omega (arith, c, e))
        | inr (owner', (r, ((a, b), w))) ↦ rw r (w, omega (arith, a, e))
      ]

  abbrev CountedTo :
      {W E : Type 0} → ℕ → Run (E × (Owner × W)) (VmnetServiceToken × (Owner × W)) → Type 0
  CountedTo n panic = Unit {0}
  CountedTo n (err (e, (owner, w))) = Counted n owner
  CountedTo n (ok (token, (owner, w))) = Counted n owner

  submit_to-Counted :
      {E W : Type 0} (n : ℕ) (p : P) (build : P → VmnetServiceToken → Command)
      (enqueue : Command → W → Option E × W) (owner : Owner) (w : W)
      → n + 2 < 2 ^ 64
      → Counted n owner
      → CountedTo (suc n) (submit_to messages p build enqueue owner w)
  unfolding submit_to insert_pending has_token
  submit_to-Counted n p build enqueue owner w h (v, e) =
      let next : (owner.tokens.next + 1) % 2 ^ 64 ≡ owner.tokens.next + 1 = omega arith in
      let fresh = has_token-Below owner.pending owner.tokens.next (omega arith) v.0 in
      let count : (owner.tokens.next + 1) % 2 ^ 64 ≡ suc n + 1 = omega (arith, next) in
      let below =
        Below-mono {n = owner.tokens.next} {m = (owner.tokens.next + 1) % 2 ^ 64} owner.pending
          (omega arith) v.0 in
      elim (Option-cases (enqueue (build p owner.tokens.next) w).0) [
        | inr (x, q) ↦ rw (submit_to, q) ((below, v.1), count)
        | inl q ↦
            rw (submit_to, q, insert_pending, fresh) (((omega arith, (fresh, below)), v.1), count)
      ]

  cancel_pending-Counted :
      (n : ℕ) (token : VmnetServiceToken) (kind : VmnetServiceIoKind) (owner : Owner)
      → Counted n owner
      → CountedRun n (cancel_pending messages token kind owner)
  unfolding cancel_pending
  cancel_pending-Counted n token kind owner (v, e) =
      elim (cancel_pending_lem messages token kind owner v) [
        | inl (owner', (r, (a, (b, w)))) ↦ rw r (w, ap (λ t. t.next) b.1.1 ∙ e)
        | inr (inl (owner', (r, (a, (b, w))))) ↦ rw r (w, ap (λ t. t.next) b.1.1 ∙ e)
        | inr (inr (p, (owner', (r, (a, (b, w)))))) ↦ rw r (w, ap (λ t. t.next) b.1.1 ∙ e)
      ]

  complete-Counted :
      (n : ℕ) (c : VmnetServiceCompletion messages C) (owner : Owner)
      → Counted n owner
      → CountedSum n (complete messages c owner)
  unfolding complete service_complete
  complete-Counted n c owner (v, e) =
      elim (Bool-cases (leb owner.queues.completion_capacity (length owner.queues.completions))) [
        | inl f ↦ rw (complete, service_complete, f) tt
        | inr f ↦
            rw (complete, service_complete, f)
              (
                (v.0, (v.1.0, ground (arith, f, length-append owner.queues.completions (c ∷ [])))),
                e,
              )
      ]

  abbrev CountedDrain :
      ℕ
      → (VmnetServiceQueueFull (VmnetServiceCompletion messages C)
          × (List (VmnetServiceCompletion messages C) × Owner))
        ⊎ (VmnetAsyncServiceDrain × Owner)
      → Type 0
  CountedDrain n (inl (full, (rest, owner))) = Counted n owner
  CountedDrain n (inr (drain, owner)) = Counted n owner

  drain_loop-Counted :
      (n k : ℕ) (waiting : List (VmnetServiceCompletion messages C)) (closed : Bool) (owner : Owner)
      → Counted n owner
      → CountedDrain n (drain_loop messages P C k waiting closed owner)
  unfolding drain_loop
  drain_loop-Counted n k [] closed owner c = c
  drain_loop-Counted n k (x ∷ waiting) closed owner c = elim (⊎-cases (complete messages x owner)) [
    | inl (full, e) ↦ rw (drain_loop, e) c
    | inr (owner', e) ↦
        rw (drain_loop, e)
          (drain_loop-Counted n (k + 1) waiting closed owner'
            (subst (CountedSum n) e (complete-Counted n x owner c)))
  ]

  drain_from_async_worker-Counted :
      (n : ℕ) (waiting : List (VmnetServiceCompletion messages C)) (closed : Bool) (owner : Owner)
      → Counted n owner
      → CountedDrain n (drain_from_async_worker messages P C waiting closed owner)
  unfolding drain_from_async_worker
  drain_from_async_worker-Counted n waiting closed owner c =
      drain_loop-Counted n 0 waiting closed owner c

  recv_command-Counted :
      (n : ℕ) (owner : Owner) → Counted n owner → Counted n (recv_command messages owner).1
  recv_command-Counted n owner (v, e) = ((v.0, service_recv_command-Bounded owner.queues v.1), e)

  recv_completion-Counted :
      (n : ℕ) (owner : Owner) → Counted n owner → Counted n (recv_completion messages owner).1
  recv_completion-Counted n owner (v, e) =
      ((v.0, owner_recv_completion-Bounded owner.queues v.1), e)

  remove_pending_for_completion-Counted :
      (n : ℕ) (c : VmnetServiceCompletion messages C) (owner : Owner)
      → Counted n owner
      → Counted n (remove_pending_for_completion messages c owner).1
  unfolding remove_pending_for_completion
  remove_pending_for_completion-Counted n c owner (v, e) = (
    (Below-remove_pending owner.tokens.next (completion_token messages c) owner.pending v.0, v.1),
    e,
  )

  Execution-cases :
      (x : Execution messages C) → ((c : _) × (x ≡ completed c)) ⊎ ((o : _) × (x ≡ unsupported o))
  Execution-cases (completed c) = inl (c, refl)
  Execution-cases (unsupported o) = inr (o, refl)

  run_dns_service_owner_step-Counted :
      {U : Type 0} (exchange : messages.Message → U → Exchange messages × U) (n : ℕ) (owner : Owner)
      (u : U)
      → Counted n owner
      → Counted n (run_dns_service_owner_step messages exchange owner u).1.0
  unfolding run_dns_service_owner_step
  run_dns_service_owner_step-Counted exchange n owner u c =
      let taken = recv_command-Counted n owner c in
      let next = (recv_command messages owner).1 in
      elim (Option-cases (recv_command messages owner).0) [
        | inl e ↦ rw (run_dns_service_owner_step, e) taken
        | inr (command, e) ↦
            elim (Execution-cases (execute_dns_service_command messages exchange command u).0) [
              | inr (o, x) ↦ rw (run_dns_service_owner_step, e, x) taken
              | inl (completion, x) ↦ elim (⊎-cases (complete messages completion next)) [
                | inl (full, r) ↦ rw (run_dns_service_owner_step, e, x, r) taken
                | inr (owner', r) ↦
                    rw (run_dns_service_owner_step, e, x, r)
                      (subst (CountedSum n) r (complete-Counted n completion next taken))
              ]
            ]
      ]

  Issue-Counted :
      (n : ℕ) (owner owner' : Owner)
      → n + 2 < 2 ^ 64
      → Issue owner owner'
      → Counted n owner
      → Counted (suc n) owner'
  Issue-Counted n owner owner' h (submitted p build token e) c =
      subst (CountedRun (suc n)) e (submit-Counted n p build owner h c)
  Issue-Counted n owner owner' h (refused p build full e) c =
      subst (CountedRun (suc n)) e (submit-Counted n p build owner h c)
  Issue-Counted n owner owner' h (submitted_to E W p build enqueue w w' token e) c =
      subst (CountedTo (suc n)) e (submit_to-Counted n p build enqueue owner w h c)
  Issue-Counted n owner owner' h (refused_to E W p build enqueue w w' x e) c =
      subst (CountedTo (suc n)) e (submit_to-Counted n p build enqueue owner w h c)
  Issue-Counted n owner owner' h (submitted_to_worker E W p build try_send w w' token e) c =
      subst (CountedTo (suc n)) e (submit_to-Counted n p build try_send owner w h c)
  Issue-Counted n owner owner' h (refused_by_worker E W p build try_send w w' x e) c =
      subst (CountedTo (suc n)) e (submit_to-Counted n p build try_send owner w h c)

  Step-Counted :
      (n : ℕ) (owner owner' : Owner) → Step owner owner' → Counted n owner → Counted n owner'
  Step-Counted n owner owner' (cancelled_one token kind p e) c =
      subst (CountedRun n) e (cancel_pending-Counted n token kind owner c)
  Step-Counted n owner owner' (not_cancelled token kind x e) c =
      subst (CountedRun n) e (cancel_pending-Counted n token kind owner c)
  Step-Counted n owner owner' (command_taken e) c =
      subst (Counted n) (sym e) (recv_command-Counted n owner c)
  Step-Counted n owner owner' (completion_put x e) c =
      subst (CountedSum n) e (complete-Counted n x owner c)
  Step-Counted n owner owner' (completion_taken e) c =
      subst (Counted n) (sym e) (recv_completion-Counted n owner c)
  Step-Counted n owner owner' (resolved x e) c =
      subst (Counted n) (sym e) (remove_pending_for_completion-Counted n x owner c)
  Step-Counted n owner owner' (drained e) c = subst (Counted n) (sym e) ((tt, c.0.1), c.1)
  Step-Counted n owner owner' (worker_drained waiting closed drain e) c =
      subst (CountedDrain n) e (drain_from_async_worker-Counted n waiting closed owner c)
  Step-Counted n owner owner' (worker_drained_in_part waiting rest closed full e) c =
      subst (CountedDrain n) e (drain_from_async_worker-Counted n waiting closed owner c)
  Step-Counted n owner owner' (dns_stepped U exchange u e) c =
      subst (Counted n) (sym e) (run_dns_service_owner_step-Counted exchange n owner u c)

  new_owner-Counted :
      (limits : VmnetServiceIoLimits) → CountedSum 0 (new_owner messages {P = P} {C = C} limits)
  unfolding new_owner new_queues validate_limits
  new_owner-Counted limits = elim (Bool-cases (limits.command_capacity == 0)) [
    | inl a ↦ rw (new_owner, new_queues, validate_limits, a) tt
    | inr a ↦ elim (Bool-cases (limits.completion_capacity == 0)) [
      | inl b ↦ rw (new_owner, new_queues, validate_limits, a, b) tt
      | inr b ↦
          rw (new_owner, new_queues, validate_limits, a, b) ((tt, (omega arith, omega arith)), refl)
    ]
  ]

  Reach-Counted :
      (limits : VmnetServiceIoLimits) (start owner : Owner) (n : ℕ)
      → new_owner messages limits ≡ inr start
      → Reach start n owner
      → n + 1 < 2 ^ 64
      → Counted n owner
  Reach-Counted limits start owner n e here h = subst (CountedSum 0) e (new_owner-Counted limits)
  Reach-Counted limits start owner n e (issue {n = m} {owner = before} r i) h =
      Issue-Counted m before owner (omega arith) i
        (Reach-Counted limits start before m e r (omega arith))
  Reach-Counted limits start owner n e (step {owner = before} r s) h =
      Step-Counted n before owner s (Reach-Counted limits start before n e r h)

  -- From a new owner, whatever calls of it follow each other (the submissions to its queue, to another
  -- sink or to a worker, the cancellations, the steps of the service, the completions, a worker's
  -- drain), with fewer than 2^64 - 2 tokens issued: the
  -- pending tokens are different and were issued, and both queues are within their capacities.
  pub Reach-Bounded :
      (limits : VmnetServiceIoLimits) (start owner : Owner) (n : ℕ)
      → new_owner messages limits ≡ inr start
      → Reach start n owner
      → n + 1 < 2 ^ 64
      → IsValid messages owner
  Reach-Bounded limits start owner n e r h = (Reach-Counted limits start owner n e r h).0
