-- ===== src/VmnetService/Queues.antt =====
-- The queues, limits, tokens and pending table of vm-frontend/src/vmnet_service_io.rs. A token is a
-- u64; the pending HashMap is an association list without order.
use wrapper.Common.{
  ℕ, ◌+◌, ◌%◌, ◌^◌, Bool, true, false, Option, none, some, List, [], ◌∷◌, ◌++◌, length, leb, ◌==◌,
  if◌then◌else◌, ◌⊎◌, inl, inr,
}

abbrev pub VmnetServiceToken : Type 0
VmnetServiceToken = ℕ

pub record VmnetServiceTokenSource : Type 0 where
  pub next : ℕ

abbrev pub new_source : VmnetServiceTokenSource
new_source = record { next = 1 }

-- The increment wraps, as in a build without overflow checks.
abbrev pub next_token : VmnetServiceTokenSource → VmnetServiceToken × VmnetServiceTokenSource
next_token source = (source.next, record { next = (source.next + 1) % 2 ^ 64 })

-- `VmnetServicePending`.
abbrev pub Pending {ℓ} : Type ℓ → Type ℓ
Pending T = List (VmnetServiceToken × T)

-- `contains` and `contains_key`.
unfoldable pub has_token {ℓ} : {T : Type ℓ} → VmnetServiceToken → Pending T → Bool
has_token token [] = false
has_token token ((t, item) ∷ items) = if t == token then true else has_token token items

-- `insert`: the table, or the item back for a token that is there.
unfoldable pub insert_pending {ℓ} :
    {T : Type ℓ} → VmnetServiceToken → T → Pending T → (VmnetServiceToken × T) ⊎ Pending T
unfolding has_token
insert_pending token item items =
    if has_token token items then inl (token, item) else inr ((token, item) ∷ items)

unfoldable pub remove_pending {ℓ} :
    {T : Type ℓ} → VmnetServiceToken → Pending T → Option T × Pending T
remove_pending token [] = (none, [])
remove_pending token ((t, item) ∷ items) =
    let (found, rest) = remove_pending token items in
    if t == token then (some item, items) else (found, (t, item) ∷ rest)

pub record VmnetServiceIoLimits : Type 0 where
  pub command_capacity : ℕ
  pub completion_capacity : ℕ

pub data VmnetServiceIoLimitError : Type 0 where
  zero_command_capacity zero_completion_capacity : VmnetServiceIoLimitError

abbrev pub default_limits : VmnetServiceIoLimits
default_limits = record { command_capacity = 128; completion_capacity = 128 }

unfoldable pub validate_limits :
    VmnetServiceIoLimits → VmnetServiceIoLimitError ⊎ VmnetServiceIoLimits
validate_limits limits =
    if limits.command_capacity == 0
    then inl zero_command_capacity
    else if limits.completion_capacity == 0
    then inl zero_completion_capacity
    else inr limits

pub record VmnetServiceQueueFull {ℓ} (T : Type ℓ) : Type ℓ where
  pub capacity : ℕ
  pub item : T

pub record VmnetServiceIoQueues {ℓ} (Command Completion : Type ℓ) : Type ℓ where
  pub command_capacity : ℕ
  pub completion_capacity : ℕ
  pub commands : List Command
  pub completions : List Completion

module _ {ℓ} {Command Completion : Type ℓ} where
  unfoldable pub new_queues :
      VmnetServiceIoLimits → VmnetServiceIoLimitError ⊎ VmnetServiceIoQueues Command Completion
  unfolding validate_limits
  new_queues limits = elim (validate_limits limits) [
    | inl e ↦ inl e
    | inr l ↦ inr (record {
      command_capacity = l.command_capacity;
      completion_capacity = l.completion_capacity;
      commands = [];
      completions = [];
    })
  ]

  unfoldable pub owner_send :
      Command
      → VmnetServiceIoQueues Command Completion
      → VmnetServiceQueueFull Command ⊎ VmnetServiceIoQueues Command Completion
  owner_send command q =
      if leb q.command_capacity (length q.commands)
      then inl (record { capacity = q.command_capacity; item = command })
      else inr (record q { commands = q.commands ++ command ∷ [] })

  -- `pop_front`.
  abbrev pub service_recv_command :
      VmnetServiceIoQueues Command Completion
      → Option Command × VmnetServiceIoQueues Command Completion
  service_recv_command q = elim q.commands [
    | [] ↦ (none, q)
    | command ∷ rest ↦ (some command, record q { commands = rest })
  ]

  unfoldable pub service_complete :
      Completion
      → VmnetServiceIoQueues Command Completion
      → VmnetServiceQueueFull Completion ⊎ VmnetServiceIoQueues Command Completion
  service_complete completion q =
      if leb q.completion_capacity (length q.completions)
      then inl (record { capacity = q.completion_capacity; item = completion })
      else inr (record q { completions = q.completions ++ completion ∷ [] })

  abbrev pub owner_recv_completion :
      VmnetServiceIoQueues Command Completion
      → Option Completion × VmnetServiceIoQueues Command Completion
  owner_recv_completion q = elim q.completions [
    | [] ↦ (none, q)
    | completion ∷ rest ↦ (some completion, record q { completions = rest })
  ]
