-- ===== src/VmnetService/Owner.antt =====
-- `VmnetServiceOwner` of vm-frontend/src/vmnet_service_io.rs: what the gateway keeps of the work that
-- it has handed out. The `unreachable!` of a duplicated token is the panic.
use wrapper.Common.{ℕ, Option, none, some, List, [], ◌⊎◌, inl, inr}
use wrapper.Run.{Run, panic, err, ok}
use wrapper.Dns.{Messages, Exchange}
use wrapper.VmnetService.Queues.{
  VmnetServiceToken, VmnetServiceTokenSource, new_source, next_token, Pending, insert_pending,
  remove_pending, VmnetServiceIoLimits, VmnetServiceIoLimitError, VmnetServiceQueueFull,
  VmnetServiceIoQueues, new_queues, owner_send, service_recv_command, service_complete,
  owner_recv_completion,
}
use wrapper.VmnetService.{
  VmnetServiceIoKind, VmnetServiceCommand, cancel, VmnetServiceCompletion, completion_token,
  completed, unsupported, execute_dns_service_command,
}

pub record VmnetServiceSubmitFull (messages : Messages) (P : Type 0) : Type 0 where
  pub capacity : ℕ
  pub pending : P
  pub command : VmnetServiceCommand messages

pub record VmnetServiceSubmitError (messages : Messages) (P E : Type 0) : Type 0 where
  pub pending : P
  pub command : VmnetServiceCommand messages
  pub error : E

pub data VmnetServiceCancelError (messages : Messages) : Type 0 where
  not_found : VmnetServiceToken → VmnetServiceCancelError messages
  queue_full : ℕ → VmnetServiceCommand messages → VmnetServiceCancelError messages

pub data VmnetDnsServiceStep (messages : Messages) (C : Type 0) : Type 0 where
  idle step_completed : VmnetDnsServiceStep messages C
  step_unsupported : VmnetServiceCommand messages → VmnetDnsServiceStep messages C
  completion_queue_full :
      VmnetServiceQueueFull (VmnetServiceCompletion messages C) → VmnetDnsServiceStep messages C

pub record VmnetServiceOwner (messages : Messages) (P C : Type 0) : Type 0 where
  pub tokens : VmnetServiceTokenSource
  pub pending : Pending P
  pub queues :
      VmnetServiceIoQueues (VmnetServiceCommand messages) (VmnetServiceCompletion messages C)

module _ (messages : Messages) {P C : Type 0} where
  unfoldable pub new_owner :
      VmnetServiceIoLimits → VmnetServiceIoLimitError ⊎ VmnetServiceOwner messages P C
  unfolding new_queues
  new_owner limits =
      elim (new_queues {Command = VmnetServiceCommand messages}
        {Completion = VmnetServiceCompletion messages C} limits) [
          | inl e ↦ inl e
          | inr q ↦ inr (record { tokens = new_source; pending = []; queues = q })
        ]

  -- The owner after the call: on an error the token is spent all the same.
  unfoldable pub submit :
      P
      → (P → VmnetServiceToken → VmnetServiceCommand messages)
      → VmnetServiceOwner messages P C
      → Run
          (VmnetServiceSubmitFull messages P × VmnetServiceOwner messages P C)
          (VmnetServiceToken × VmnetServiceOwner messages P C)
  unfolding insert_pending owner_send
  submit p build_command owner =
      let (token, tokens) = next_token owner.tokens in
      let command = build_command p token in
      elim (owner_send command owner.queues) [
        | inl full ↦ err (
          record { capacity = full.capacity; pending = p; command = full.item },
          record owner { tokens = tokens },
        )
        | inr queues ↦ elim (insert_pending token p owner.pending) [
          | inl duplicate ↦ panic
          | inr items ↦ ok (token, record { tokens = tokens; pending = items; queues = queues })
        ]
      ]

  -- `submit_to`, where `enqueue` changes a state `W` of the sink.
  unfoldable pub submit_to :
      {E W : Type 0}
      → P
      → (P → VmnetServiceToken → VmnetServiceCommand messages)
      → (VmnetServiceCommand messages → W → Option E × W)
      → VmnetServiceOwner messages P C
      → W
      → Run
          (VmnetServiceSubmitError messages P E × (VmnetServiceOwner messages P C × W))
          (VmnetServiceToken × (VmnetServiceOwner messages P C × W))
  unfolding insert_pending
  submit_to p build_command enqueue owner w =
      let (token, tokens) = next_token owner.tokens in
      let command = build_command p token in
      let (failure, w') = enqueue command w in
      elim failure [
        | some e ↦ err (
          record { pending = p; command = command; error = e },
          (record owner { tokens = tokens }, w'),
        )
        | none ↦ elim (insert_pending token p owner.pending) [
          | inl duplicate ↦ panic
          | inr items ↦ ok (token, (record owner { tokens = tokens; pending = items }, w'))
        ]
      ]

  -- `submit_to_async_worker`, by what `try_send_command` does to the handle of the worker.
  abbrev pub submit_to_async_worker :
      {E W : Type 0}
      → P
      → (P → VmnetServiceToken → VmnetServiceCommand messages)
      → (VmnetServiceCommand messages → W → Option E × W)
      → VmnetServiceOwner messages P C
      → W
      → Run
          (VmnetServiceSubmitError messages P E × (VmnetServiceOwner messages P C × W))
          (VmnetServiceToken × (VmnetServiceOwner messages P C × W))
  submit_to_async_worker p build_command try_send_command owner worker =
      submit_to p build_command try_send_command owner worker

  unfoldable pub cancel_pending :
      VmnetServiceToken
      → VmnetServiceIoKind
      → VmnetServiceOwner messages P C
      → Run
          (VmnetServiceCancelError messages × VmnetServiceOwner messages P C)
          (P × VmnetServiceOwner messages P C)
  unfolding remove_pending insert_pending owner_send
  cancel_pending token kind owner =
      let (found, items) = remove_pending token owner.pending in
      elim found [
        | none ↦ err (not_found token, record owner { pending = items })
        | some p ↦ elim (owner_send (cancel (record { token = token; kind = kind })) owner.queues) [
          | inr queues ↦ ok (p, record owner { pending = items; queues = queues })
          | inl full ↦ elim (insert_pending token p items) [
            | inl duplicate ↦ panic
            | inr restored ↦
                err (queue_full full.capacity full.item, record owner { pending = restored })
          ]
        ]
      ]

  unfoldable pub remove_pending_for_completion :
      VmnetServiceCompletion messages C
      → VmnetServiceOwner messages P C
      → Option P × VmnetServiceOwner messages P C
  unfolding remove_pending
  remove_pending_for_completion completion owner =
      let (found, items) = remove_pending (completion_token messages completion) owner.pending in
      (found, record owner { pending = items })

  -- `VmnetServiceOwner::service_recv_command` and the other calls that the owner passes on.
  abbrev pub recv_command :
      VmnetServiceOwner messages P C
      → Option (VmnetServiceCommand messages) × VmnetServiceOwner messages P C
  recv_command owner =
      let (command, queues) = service_recv_command owner.queues in
      (command, record owner { queues = queues })

  abbrev pub recv_completion :
      VmnetServiceOwner messages P C
      → Option (VmnetServiceCompletion messages C) × VmnetServiceOwner messages P C
  recv_completion owner =
      let (completion, queues) = owner_recv_completion owner.queues in
      (completion, record owner { queues = queues })

  unfoldable pub complete :
      VmnetServiceCompletion messages C
      → VmnetServiceOwner messages P C
      → VmnetServiceQueueFull (VmnetServiceCompletion messages C) ⊎ VmnetServiceOwner messages P C
  unfolding service_complete
  complete completion owner = elim (service_complete completion owner.queues) [
    | inl full ↦ inl full
    | inr queues ↦ inr (record owner { queues = queues })
  ]

  -- `drain_pending`, with the owner after it.
  abbrev pub drain_pending :
      VmnetServiceOwner messages P C → List (VmnetServiceToken × P) × VmnetServiceOwner messages P C
  drain_pending owner = (owner.pending, record owner { pending = [] })

  -- `run_dns_service_owner_step`, with the upstream after it.
  unfoldable pub run_dns_service_owner_step :
      {Upstream : Type 0}
      → (messages.Message → Upstream → Exchange messages × Upstream)
      → VmnetServiceOwner messages P C
      → Upstream
      → VmnetDnsServiceStep messages C × (VmnetServiceOwner messages P C × Upstream)
  unfolding execute_dns_service_command complete
  run_dns_service_owner_step exchange owner u =
      let (received, owner') = recv_command owner in
      elim received [
        | none ↦ (idle, (owner', u))
        | some command ↦
            let (execution, u') = execute_dns_service_command messages exchange command u in
            elim execution [
              | unsupported other ↦ (step_unsupported other, (owner', u'))
              | completed completion ↦ elim (complete completion owner') [
                | inl full ↦ (completion_queue_full full, (owner', u'))
                | inr owner'' ↦ (step_completed, (owner'', u'))
              ]
            ]
      ]
