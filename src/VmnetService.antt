-- ===== src/VmnetService.antt =====
-- vm-frontend/src/vmnet_service_io.rs: the work that the gateway hands to workers, and what comes
-- back.
pub mod Queues
pub mod Worker
pub mod Tests
pub mod Fifo
pub mod Deferred
pub mod Reached
pub mod Cancel
pub mod Submit
pub mod Table
pub mod Owner
use wrapper.Common.{
  ℕ, ◌+◌, Bool, true, false, Option, none, some, List, [], ◌∷◌, ◌⊎◌, inl, inr, if◌then◌else◌,
}
use wrapper.Run.{Run, panic, err, ok}
use wrapper.Dns.{Messages, DnsForwardRequest, Exchange}
use wrapper.Tcp.{TcpDestination, Connector, Connected}
use Queues.{
  VmnetServiceToken, VmnetServiceTokenSource, new_source, next_token, Pending, insert_pending,
  remove_pending, VmnetServiceIoLimits, VmnetServiceIoLimitError, VmnetServiceQueueFull,
  VmnetServiceIoQueues, new_queues, owner_send, service_recv_command, service_complete,
  owner_recv_completion,
}

pub data VmnetServiceIoKind : Type 0 where
  dns_kind tcp_kind certificate_kind : VmnetServiceIoKind

pub record VmnetServiceCancel : Type 0 where
  pub token : VmnetServiceToken
  pub kind : VmnetServiceIoKind

pub record VmnetTcpConnectCommand : Type 0 where
  pub token : VmnetServiceToken
  pub destination : TcpDestination

module _ (messages : Messages) where
  open messages use {Message}

  pub record VmnetDnsLookupCommand : Type 0 where
    pub token : VmnetServiceToken
    pub request : DnsForwardRequest messages

  pub data VmnetServiceCommand : Type 0 where
    dns_lookup : VmnetDnsLookupCommand → VmnetServiceCommand
    tcp_connect : VmnetTcpConnectCommand → VmnetServiceCommand
    cancel : VmnetServiceCancel → VmnetServiceCommand

  abbrev pub command_token : VmnetServiceCommand → VmnetServiceToken
  command_token (dns_lookup command) = command.token
  command_token (tcp_connect command) = command.token
  command_token (cancel command) = command.token

  abbrev pub command_kind : VmnetServiceCommand → VmnetServiceIoKind
  command_kind (dns_lookup command) = dns_kind
  command_kind (tcp_connect command) = tcp_kind
  command_kind (cancel command) = command.kind

  pub record VmnetDnsLookupCompletion : Type 0 where
    pub token : VmnetServiceToken
    pub result : Exchange messages

  pub record VmnetTcpConnectCompletion (C : Type 0) : Type 0 where
    pub token : VmnetServiceToken
    pub result : Connected C

  pub data VmnetServiceCompletion (C : Type 0) : Type 0 where
    dns_completed : VmnetDnsLookupCompletion → VmnetServiceCompletion C
    tcp_completed : VmnetTcpConnectCompletion C → VmnetServiceCompletion C
    cancelled : VmnetServiceCancel → VmnetServiceCompletion C

  abbrev pub completion_token : {C : Type 0} → VmnetServiceCompletion C → VmnetServiceToken
  completion_token (dns_completed completion) = completion.token
  completion_token (tcp_completed completion) = completion.token
  completion_token (cancelled completion) = completion.token

  abbrev pub completion_kind : {C : Type 0} → VmnetServiceCompletion C → VmnetServiceIoKind
  completion_kind (dns_completed completion) = dns_kind
  completion_kind (tcp_completed completion) = tcp_kind
  completion_kind (cancelled completion) = completion.kind

  -- `VmnetDnsServiceExecution` and `VmnetTcpConnectServiceExecution`, which have the same variants.
  pub data Execution (C : Type 0) : Type 0 where
    completed : VmnetServiceCompletion C → Execution C
    unsupported : VmnetServiceCommand → Execution C

  -- With the upstream after the exchange.
  unfoldable pub execute_dns_service_command :
      {C Upstream : Type 0}
      → (Message → Upstream → Exchange messages × Upstream)
      → VmnetServiceCommand
      → Upstream
      → Execution C × Upstream
  execute_dns_service_command exchange (dns_lookup command) u =
      let (result, u') = exchange command.request.query u in
      (completed (dns_completed (record { token = command.token; result = result })), u')
  execute_dns_service_command exchange (tcp_connect command) u =
      (unsupported (tcp_connect command), u)
  execute_dns_service_command exchange (cancel command) u = elim command.kind [
    | dns_kind ↦ (completed (cancelled command), u)
    | _ ↦ (unsupported (cancel command), u)
  ]

  unfoldable pub execute_tcp_connect_service_command :
      {World C : Type 0} → Connector World C → VmnetServiceCommand → World → Execution C × World
  execute_tcp_connect_service_command connector (tcp_connect command) w =
      let (result, w') = connector command.destination w in
      (completed (tcp_completed (record { token = command.token; result = result })), w')
  execute_tcp_connect_service_command connector (dns_lookup command) w =
      (unsupported (dns_lookup command), w)
  execute_tcp_connect_service_command connector (cancel command) w = elim command.kind [
    | tcp_kind ↦ (completed (cancelled command), w)
    | _ ↦ (unsupported (cancel command), w)
  ]
