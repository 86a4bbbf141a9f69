-- ===== src/VmnetService/Worker.antt =====
-- `drain_from_async_worker` of vm-frontend/src/vmnet_service_io.rs: what a worker has sent so far is
-- moved to the completion queue. A worker's channel is the list of what waits in it, and whether the
-- worker is gone.
use wrapper.Common.{
  ℕ, suc, ◌+◌, ◌≤◌, ◌≡◌, Bool, false, List, [], ◌∷◌, ◌++◌, append-nil, append_assoc, leb, length,
  length-append, arith, ◌⊎◌, inl, inr, sym, ◌∙◌,
}
use wrapper.Dns.{Messages}
use wrapper.VmnetService.Queues.{VmnetServiceQueueFull, service_complete}
use wrapper.VmnetService.{VmnetServiceCompletion}
use wrapper.VmnetService.Owner.{VmnetServiceOwner, complete}

pub record VmnetAsyncServiceDrain : Type 0 where
  pub completions : ℕ
  pub disconnected : Bool

module _ (messages : Messages) (P C : Type 0) where
  abbrev Owner : Type 0
  Owner = VmnetServiceOwner messages P C

  abbrev Completion : Type 0
  Completion = VmnetServiceCompletion messages C

  -- The loop, with the count so far: on a full queue the completion comes back, and what waits behind
  -- it is still there.
  unfoldable pub drain_loop :
      ℕ
      → List Completion
      → Bool
      → Owner
      → (VmnetServiceQueueFull Completion × (List Completion × Owner))
        ⊎ (VmnetAsyncServiceDrain × Owner)
  unfolding complete
  drain_loop n [] closed owner = inr (record { completions = n; disconnected = closed }, owner)
  drain_loop n (c ∷ waiting) closed owner = elim (complete messages c owner) [
    | inl full ↦ inl (full, (waiting, owner))
    | inr owner' ↦ drain_loop (n + 1) waiting closed owner'
  ]

  unfoldable pub drain_from_async_worker :
      List Completion
      → Bool
      → Owner
      → (VmnetServiceQueueFull Completion × (List Completion × Owner))
        ⊎ (VmnetAsyncServiceDrain × Owner)
  unfolding drain_loop
  drain_from_async_worker waiting closed owner = drain_loop 0 waiting closed owner

  -- The owner with more completions.
  abbrev pub with_completions : Owner → List Completion → Owner
  with_completions owner cs = record owner {
    queues = record owner.queues { completions = owner.queues.completions ++ cs };
  }

  abbrev drained :
      Owner
      → Bool
      → ℕ
      → List Completion
      → (VmnetServiceQueueFull Completion × (List Completion × Owner))
        ⊎ (VmnetAsyncServiceDrain × Owner)
  drained owner closed n cs = inr (
    record { completions = n; disconnected = closed },
    record owner { queues = record owner.queues { completions = cs } },
  )

  drain_loop_lem :
      (n : ℕ) (waiting : List Completion) (closed : Bool) (owner : Owner)
      → length owner.queues.completions + length waiting ≤ owner.queues.completion_capacity
      → drain_loop n waiting closed owner
        ≡ inr (
          record { completions = n + length waiting; disconnected = closed },
          with_completions owner waiting,
        )
  unfolding drain_loop complete service_complete
  drain_loop_lem n [] closed owner h =
      let e : n ≡ n + 0 = omega arith in
      λ i. drained owner closed (e i) (sym (append-nil owner.queues.completions) i)
  drain_loop_lem n (c ∷ waiting) closed owner h =
      let f : leb owner.queues.completion_capacity (length owner.queues.completions) ≡ false =
        ground arith in
      let next = with_completions owner (c ∷ []) in
      let e : n + 1 + length waiting ≡ n + suc (length waiting) = omega arith in
      rw (drain_loop, complete, service_complete, f)
        (drain_loop_lem (n + 1) waiting closed next
            (omega (arith, length-append owner.queues.completions (c ∷ [])))
          ∙ (λ i.
              drained owner closed (e i)
                (append_assoc owner.queues.completions (c ∷ []) waiting i)))

  -- Where all that waits fits in the completion queue: all of it is appended in order, none is lost,
  -- its number is reported, and whether the worker is gone.
  pub drain_from_async_worker_lem :
      (waiting : List Completion) (closed : Bool) (owner : Owner)
      → length owner.queues.completions + length waiting ≤ owner.queues.completion_capacity
      → drain_from_async_worker waiting closed owner
        ≡ inr (
          record { completions = length waiting; disconnected = closed },
          with_completions owner waiting,
        )
  unfolding drain_from_async_worker
  drain_from_async_worker_lem waiting closed owner h =
      let e : 0 + length waiting ≡ length waiting = omega arith in
      drain_loop_lem 0 waiting closed owner h
      ∙ (λ i. drained owner closed (e i) (owner.queues.completions ++ waiting))
