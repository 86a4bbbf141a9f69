-- ===== src/VmnetService/Deferred.antt =====
-- A DNS query that vm-frontend/src/vmnet_gateway.rs defers and that goes through the service of
-- vm-frontend/src/vmnet_service_io.rs gets the answer that it gets at once otherwise.
use wrapper.Common.{
  ℕ, ◌+◌, ◌%◌, ◌<◌, ◌^◌, ◌≡◌, refl, true, false, some, [], ◌∷◌, Bytes, leb, arith, ◌==◌,
}
use wrapper.Run.{ok}
use wrapper.Policy.{Nets, VmnetPolicy}
use wrapper.Dns.{Messages, Exchange}
use wrapper.GuestTcp.Sockets.{Parsers, SmolTcp}
use wrapper.VmnetGateway.{
  VmnetGateway, VmnetPendingDnsQuery, pending, dns_result, complete_pending_dns_query,
  handle_guest_frame_with_deferred_dns, handle_guest_frame,
}
use wrapper.VmnetService.Queues.{
  VmnetServiceToken, Pending, has_token, insert_pending, remove_pending, owner_send,
  service_complete,
}
use wrapper.VmnetService.Table.{Below, has_token-Below}
use wrapper.VmnetService.{
  VmnetServiceCommand, dns_lookup, dns_completed, execute_dns_service_command,
}
use wrapper.VmnetService.Owner.{
  VmnetServiceOwner, submit, recv_completion, complete, remove_pending_for_completion,
  run_dns_service_owner_step, step_completed,
}

module _ (smol : SmolTcp) (parsers : Parsers) (nets : Nets) (messages : Messages) where
  abbrev Query : Type 0
  Query = VmnetPendingDnsQuery smol parsers nets messages

  -- `VmnetPendingDnsQuery::service_command`.
  abbrev pub service_command : Query → VmnetServiceToken → VmnetServiceCommand messages
  service_command p token = dns_lookup (record { token = token; request = p.request })

  module _ (policy : VmnetPolicy nets.Net) (C : Type 0) {Upstream : Type 0}
      (exchange : messages.Message → Upstream → Exchange messages × Upstream) where
    abbrev Owner : Type 0
    Owner = VmnetServiceOwner messages Query C

    -- The query is submitted, one step of the DNS worker makes the exchange, and the owner takes the
    -- completion and the query that waits for it.
    pub record Served (p : Query) (owner : Owner) (u : Upstream) : Type 0 where
      pub submitted : Owner
      pub worked : Owner
      pub received : Owner
      pub resolved : Owner
      pub submits : submit messages p service_command owner ≡ ok (owner.tokens.next, submitted)
      pub works :
          run_dns_service_owner_step messages exchange submitted u
          ≡ (step_completed, (worked, (exchange p.request.query u).1))
      pub receives : recv_completion messages worked ≡ (
        some (
            dns_completed
              (record { token = owner.tokens.next; result = (exchange p.request.query u).0 })),
        received,
      )
      pub resolves :
          remove_pending_for_completion messages
            (dns_completed
              (record { token = owner.tokens.next; result = (exchange p.request.query u).0 }))
            received
          ≡ (some p, resolved)
      pub rest : (resolved.pending ≡ owner.pending) × (resolved.queues ≡ owner.queues)

    -- An owner that has issued the tokens below one, with nothing in its queues.
    abbrev pub idle_owner : ℕ → Pending Query → ℕ → ℕ → Owner
    idle_owner next items command_capacity completion_capacity = record {
      tokens = record { next = next };
      pending = items;
      queues = record {
        command_capacity = command_capacity;
        completion_capacity = completion_capacity;
        commands = [];
        completions = [];
      };
    }

    idle_owner-Served :
        (p : Query) (next : ℕ) (items : Pending Query) (a b : ℕ) (u : Upstream)
        → Below next items
        → next + 1 < 2 ^ 64
        → 0 < a
        → 0 < b
        → Served p (idle_owner next items a b) u
    unfolding submit owner_send insert_pending run_dns_service_owner_step
        execute_dns_service_command complete service_complete remove_pending_for_completion
        remove_pending has_token
    idle_owner-Served p next items a b u v n ha hb =
        let fresh = has_token-Below items next (omega arith) v in
        let w : (next + 1) % 2 ^ 64 ≡ next + 1 = omega arith in
        let la : leb a 0 ≡ false = ground arith in
        let lb : leb b 0 ≡ false = ground arith in
        let same : next == next ≡ true = ground arith in
        let answer =
          dns_completed (record { token = next; result = (exchange p.request.query u).0 }) in
        let base = idle_owner (next + 1) items a b in
        record {
          submitted = record base {
            pending = (next, p) ∷ items;
            queues = record base.queues { commands = service_command p next ∷ [] };
          };
          worked = record base {
            pending = (next, p) ∷ items;
            queues = record base.queues { completions = answer ∷ [] };
          };
          received = record base { pending = (next, p) ∷ items };
          resolved = base;
          submits = rw (submit, owner_send, la, insert_pending, fresh, w) refl;
          works = rw (run_dns_service_owner_step, complete, service_complete, lb) refl;
          receives = refl;
          resolves = rw (remove_pending_for_completion, remove_pending, same) refl;
          rest = (refl, refl);
        }

    -- For an owner with a free token, empty queues and some capacity, and a frame whose DNS query is
    -- deferred: handing the query to the service, letting a worker take one step and completing the
    -- query with what comes back gives the result of handling the frame at once, with the same exchange.
    pub handle_guest_frame-Served :
        (frame : Bytes) (now : wrapper.GuestTcp.Sockets.SmolTcp.Instant smol)
        (g g' : VmnetGateway smol parsers nets messages) (p : Query) (next : ℕ)
        (items : Pending Query) (a b : ℕ) (u : Upstream)
        → Below next items
        → next + 1 < 2 ^ 64
        → 0 < a
        → 0 < b
        → handle_guest_frame_with_deferred_dns smol parsers nets messages policy frame now g
          ≡ some (pending p, g')
        → Served p (idle_owner next items a b) u
          × (handle_guest_frame smol parsers nets messages policy exchange frame now (g, u)
              ≡ some (
                dns_result (
                    complete_pending_dns_query smol parsers nets messages policy p
                      (exchange p.request.query u).0),
                (g', (exchange p.request.query u).1),
              ))
    unfolding handle_guest_frame
    handle_guest_frame-Served frame now g g' p next items a b u v n ha hb e =
        (idle_owner-Served p next items a b u v n ha hb, rw (handle_guest_frame, e) refl)
