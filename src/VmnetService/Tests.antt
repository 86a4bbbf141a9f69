-- ===== src/VmnetService/Tests.antt =====
-- Runs of the model of vm-frontend/src/vmnet_service_io.rs, on the messages and the DNS query of the
-- tests of the gateway.
use wrapper.Common.{
  ℕ, suc, ◌+◌, ◌≡◌, refl, Bool, true, false, Option, none, some, List, [], ◌∷◌, ◌++◌, Bytes, arith,
  ◌⊎◌, inl, inr,
}
use wrapper.Run.{ok}
use wrapper.Dns.{
  Messages, Exchange, dns_allowed_to_destination, plan_udp_payload,
  payload_has_answer_or_authority_records,
}
use wrapper.Dns.Domain.{domain_allowed, domain_matches, normalise, to_lower}
use wrapper.GuestTcp.Tests.{toy}
use wrapper.VmnetGateway.{
  VmnetPendingDnsQuery, pending, dns_result, complete_pending_dns_query,
  handle_guest_frame_with_deferred_dns, handle_guest_frame, plan_dns_frame,
}
use wrapper.VmnetGateway.Frames.{response_context}
use wrapper.VmnetGateway.Tests.{
  toy_parsers, nets24, policy30, names, gateway0, query_frame, query_udp, echo, query_frame-absent,
  query_frame-parsed,
}
use wrapper.VmnetService.Queues.{
  VmnetServiceToken, VmnetServiceIoQueues, VmnetServiceIoLimits, new_queues, validate_limits,
  owner_send, insert_pending,
}
use wrapper.VmnetService.{VmnetServiceCompletion, cancelled, VmnetServiceCommand, cancel, dns_kind}
use wrapper.VmnetService.Owner.{VmnetServiceOwner, new_owner, submit, cancel_pending}
use wrapper.VmnetService.Submit.{IsValid, SubmitResult, submit_lem}
use wrapper.VmnetService.Cancel.{CancelResult, cancel_pending_lem}
use wrapper.VmnetService.Worker.{
  drain_from_async_worker, with_completions, drain_from_async_worker_lem,
}
use wrapper.VmnetService.Reached.{Reach, here, issue, submitted, Reach-Bounded}
use wrapper.VmnetService.Fifo.{
  QueueCall, send, take_command, finish, take_completion, call_all, empty_log, Fifo, call_all_lem,
}
use wrapper.VmnetService.Deferred.{Served, idle_owner, handle_guest_frame-Served}

abbrev small : VmnetServiceIoLimits
small = record { command_capacity = 1; completion_capacity = 1 }

abbrev Owner : Type 0
Owner = VmnetServiceOwner names ℕ ℕ

abbrev owner0 : Owner
owner0 = record {
  tokens = record { next = 1 };
  pending = [];
  queues = record {
    command_capacity = 1;
    completion_capacity = 1;
    commands = [];
    completions = [];
  };
}

-- A command that only carries its token.
abbrev build : ℕ → VmnetServiceToken → VmnetServiceCommand names
build item token = cancel (record { token = token; kind = dns_kind })

abbrev owner1 : Owner
owner1 = record {
  tokens = record { next = 2 };
  pending = (1, 70) ∷ [];
  queues = record owner0.queues { commands = build 70 1 ∷ [] };
}

owner0-new_owner : new_owner names small ≡ inr owner0
unfolding new_owner new_queues validate_limits
owner0-new_owner = refl

owner1-submit : submit names 70 build owner0 ≡ ok (1, owner1)
unfolding submit owner_send insert_pending wrapper.VmnetService.Queues.has_token
owner1-submit = refl

owner1-Reach : Reach names ℕ ℕ owner0 1 owner1
owner1-Reach = issue here (submitted 70 build 1 owner1-submit)

Reach-Bounded_example : IsValid names owner1
Reach-Bounded_example =
    Reach-Bounded names ℕ ℕ small owner0 owner1 1 owner0-new_owner owner1-Reach (omega arith)

owner1-IsValid : IsValid names owner1
owner1-IsValid =
    Reach-Bounded names ℕ ℕ small owner0 owner1 1 owner0-new_owner owner1-Reach (omega arith)

submit_lem_example : SubmitResult names 71 build owner1 (submit names 71 build owner1)
submit_lem_example = submit_lem names 71 build owner1 owner1-IsValid (omega arith)

cancel_pending_lem_example :
    CancelResult names 1 dns_kind owner1 (cancel_pending names 1 dns_kind owner1)
cancel_pending_lem_example = cancel_pending_lem names 1 dns_kind owner1 owner1-IsValid

abbrev calls : List (QueueCall ℕ ℕ)
calls = send 3 ∷ send 4 ∷ take_command ∷ send 5 ∷ finish 6 ∷ take_completion ∷ []

abbrev queues0 : VmnetServiceIoQueues ℕ ℕ
queues0 = record { command_capacity = 1; completion_capacity = 1; commands = []; completions = [] }

call_all_lem_example : Fifo ℕ ℕ (call_all ℕ ℕ calls (queues0, empty_log ℕ ℕ))
call_all_lem_example = call_all_lem ℕ ℕ calls queues0 refl refl

abbrev query : VmnetPendingDnsQuery toy toy_parsers nets24 names
query = record {
  context = response_context query_udp;
  request = record { query = (b'A' ∷ []) ∷ []; domain = b'a' ∷ [] };
}

query-planned :
    plan_udp_payload names policy30 query_udp.payload ≡ wrapper.Dns.forward query.request
unfolding plan_udp_payload payload_has_answer_or_authority_records domain_allowed domain_matches
    wrapper.Dns.Domain.matches_normal normalise wrapper.Common.bytes_eq
query-planned = refl

query-deferred :
    handle_guest_frame_with_deferred_dns toy toy_parsers nets24 names policy30 query_frame 0
      gateway0
    ≡ some (pending query, gateway0)
unfolding handle_guest_frame_with_deferred_dns plan_dns_frame
query-deferred =
    rw
      (
        handle_guest_frame_with_deferred_dns, query_frame-absent, plan_dns_frame,
        query_frame-parsed, query-planned,
      )
      refl

handle_guest_frame-Served_example :
    Served toy toy_parsers nets24 names policy30 ℕ echo query
      (idle_owner toy toy_parsers nets24 names policy30 ℕ echo 1 [] 4 4)
      0
    × (handle_guest_frame toy toy_parsers nets24 names policy30 echo query_frame 0 (gateway0, 0)
        ≡ some (
          dns_result (
              complete_pending_dns_query toy toy_parsers nets24 names policy30 query
                (echo query.request.query 0).0),
          (gateway0, (echo query.request.query 0).1),
        ))
handle_guest_frame-Served_example =
    handle_guest_frame-Served toy toy_parsers nets24 names policy30 ℕ echo query_frame 0 gateway0
      gateway0 query 1 [] 4 4 0 tt (omega arith) (omega arith) (omega arith) query-deferred

-- The completion of a cancelled command, in the channel of a worker that is gone.
abbrev gone : List (VmnetServiceCompletion names ℕ)
gone = cancelled (record { token = 1; kind = dns_kind }) ∷ []

drain_from_async_worker_lem_example :
    drain_from_async_worker names ℕ ℕ gone true owner1
    ≡ inr (record { completions = 1; disconnected = true }, with_completions names ℕ ℕ owner1 gone)
drain_from_async_worker_lem_example =
    drain_from_async_worker_lem names ℕ ℕ gone true owner1 (omega arith)
