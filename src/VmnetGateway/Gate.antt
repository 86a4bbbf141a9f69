-- ===== src/VmnetGateway/Gate.antt =====
-- Which frames reach the TCP core of vm-frontend/src/vmnet_gateway.rs.
use wrapper.Common.{◌≡◌, refl, subst, Option, none, some, Bytes, ◌⊎◌, inl, inr, Option-cases, arith}
use wrapper.Fetch.{Fetch, Fetch-cases}
use wrapper.Policy.{Nets, VmnetPolicy}
use wrapper.L2.{handle_frame}
use wrapper.Dns.{Messages}
use wrapper.Tcp.{
  TcpDestination, TcpDecision, TcpAction, refuse, connect, intercept_http, intercept_https,
  evaluate_tcp_destination,
}
use wrapper.Tcp.Rules.{Admitted, Grounds, evaluate_tcp_destination-Grounds}
use wrapper.GuestTcp.Sockets.{Parsers, SmolTcp}
use wrapper.GuestTcp.Syn.{
  evaluate_tcp_syn_frame, parse_tcp_syn_destination, tcp_reset_for_denied_syn,
}
use wrapper.VmnetGateway.{
  VmnetGateway, GuestFrameResult, VmnetDeferredDnsFrame, VmnetDnsFramePlan, answer_now, ask,
  plan_dns_frame, handle_syn, handle_non_dns_guest_frame, handle_guest_frame_with_deferred_dns,
}
use wrapper.VmnetGateway.Frames.{
  parse_udp_frame, udp_denial_from_frame, unsupported_protocol_from_frame,
  unsupported_ipv4_protocol_from_frame,
}

module _ (smol : SmolTcp) (parsers : Parsers) (nets : Nets) (messages : Messages)
    (policy : VmnetPolicy nets.Net) where
  open smol use {Instant}

  abbrev Gateway : Type 0
  Gateway = VmnetGateway smol parsers nets messages

  -- The frame is no UDP datagram and not of a protocol that is refused, and if it is a first SYN,
  -- the egress policy admits its destination.
  abbrev pub Passed : Bytes → Type 0
  Passed frame =
      (parse_udp_frame parsers frame ≡ none)
      × ((unsupported_protocol_from_frame parsers policy frame ≡ none)
          × ((parse_tcp_syn_destination parsers frame ≡ Fetch.absent)
              ⊎ ((d : TcpDestination) × ((parse_tcp_syn_destination parsers frame ≡ Fetch.present d)
                    × Admitted nets policy d))))

  -- A UDP datagram is of a refused protocol, if it was not denied before.
  unsupported-parse_udp_frame :
      (frame : Bytes)
      → unsupported_protocol_from_frame parsers policy frame ≡ none
      → parse_udp_frame parsers frame ≡ none
  unfolding parse_udp_frame unsupported_protocol_from_frame unsupported_ipv4_protocol_from_frame
  unsupported-parse_udp_frame frame h = ground arith

  Admitted-Grounds :
      (d : TcpDestination) (action : TcpAction)
      → Grounds nets policy d action
      → (action ≡ refuse) ⊎ Admitted nets policy d
  Admitted-Grounds d refuse g = inl refl
  Admitted-Grounds d connect g = inr g.0
  Admitted-Grounds d intercept_http g = inr g.0
  Admitted-Grounds d intercept_https g = inr g.0

  abbrev Gated : Bytes → Gateway → Option (GuestFrameResult × Gateway) → Type 0
  Gated frame g none = Unit {0}
  Gated frame g (some (r, g')) = (g' ≡ g) ⊎ Passed frame

  refused_lem :
      (frame : Bytes) (now : Instant) (d : TcpDestination) (decision : TcpDecision) (g : Gateway)
      → decision.action ≡ refuse
      → Gated frame g (handle_syn smol parsers nets messages policy frame now d decision g)
  refused_lem frame now d decision g e =
      elim (Fetch-cases (tcp_reset_for_denied_syn parsers frame)) [
        | inl p ↦ rw (handle_syn, e, p) tt
        | inr (inl p) ↦ rw (handle_syn, e, p) (inl refl)
        | inr (inr (reset, p)) ↦ rw (handle_syn, e, p) (inl refl)
      ]

  any_lem :
      (frame : Bytes) (g : Gateway) (r : Option (GuestFrameResult × Gateway))
      → Passed frame
      → Gated frame g r
  any_lem frame g none p = tt
  any_lem frame g (some (r, g')) p = inr p

  handle_syn-Gated :
      (frame : Bytes) (now : Instant) (d : TcpDestination) (g : Gateway)
      → unsupported_protocol_from_frame parsers policy frame ≡ none
      → parse_tcp_syn_destination parsers frame ≡ Fetch.present d
      → Gated frame g (
          handle_syn smol parsers nets messages policy frame now d
            (evaluate_tcp_destination nets policy d)
            g)
  handle_syn-Gated frame now d g u p =
      let decision = evaluate_tcp_destination nets policy d in
      elim (Admitted-Grounds d decision.action (evaluate_tcp_destination-Grounds nets policy d)) [
        | inl e ↦ refused_lem frame now d decision g e
        | inr a ↦ any_lem frame g _ (unsupported-parse_udp_frame frame u, (u, inr (d, (p, a))))
      ]

  handle_non_dns_guest_frame-Gated :
      (frame : Bytes) (now : Instant) (g : Gateway)
      → Gated frame g (handle_non_dns_guest_frame smol parsers nets messages policy frame now g)
  unfolding handle_non_dns_guest_frame evaluate_tcp_syn_frame
  handle_non_dns_guest_frame-Gated frame now g =
      elim (Option-cases (udp_denial_from_frame parsers policy frame)) [
        | inr (denial, e) ↦ rw (handle_non_dns_guest_frame, e) (inl refl)
        | inl e ↦ elim (Option-cases (unsupported_protocol_from_frame parsers policy frame)) [
          | inr (x, u) ↦ rw (handle_non_dns_guest_frame, e, u) (inl refl)
          | inl u ↦ elim (Fetch-cases (parse_tcp_syn_destination parsers frame)) [
            | inl p ↦ rw (handle_non_dns_guest_frame, e, u, evaluate_tcp_syn_frame, p) tt
            | inr (inl p) ↦
                rw (handle_non_dns_guest_frame, e, u, evaluate_tcp_syn_frame, p)
                  (inr (unsupported-parse_udp_frame frame u, (u, inl p)))
            | inr (inr (d, p)) ↦
                rw (handle_non_dns_guest_frame, e, u, evaluate_tcp_syn_frame, p)
                  (handle_syn-Gated frame now d g u p)
          ]
        ]
      ]

  abbrev DeferredGated :
      Bytes → Gateway → Option (VmnetDeferredDnsFrame smol parsers nets messages × Gateway) → Type 0
  DeferredGated frame g none = Unit {0}
  DeferredGated frame g (some (r, g')) =
      (g' ≡ g) ⊎ ((handle_frame g.l2 frame ≡ Fetch.absent) × Passed frame)

  pub plan_cases :
      (o : Option (VmnetDnsFramePlan smol parsers nets messages))
      → ((result : _) × (o ≡ some (answer_now result)))
        ⊎ (((p : _) × (o ≡ some (ask p))) ⊎ (o ≡ none))
  plan_cases none = inr (inr refl)
  plan_cases (some (answer_now result)) = inl (result, refl)
  plan_cases (some (ask p)) = inr (inl (p, refl))

  non_dns_lem :
      (frame : Bytes) (g : Gateway) (r : GuestFrameResult) (g' : Gateway)
      → handle_frame g.l2 frame ≡ Fetch.absent
      → (g' ≡ g) ⊎ Passed frame
      → (g' ≡ g) ⊎ ((handle_frame g.l2 frame ≡ Fetch.absent) × Passed frame)
  non_dns_lem frame g r g' p (inl e) = inl e
  non_dns_lem frame g r g' p (inr q) = inr (p, q)

  deferred-Gated :
      (frame : Bytes) (now : Instant) (g : Gateway)
      → DeferredGated frame g
          (handle_guest_frame_with_deferred_dns smol parsers nets messages policy frame now g)
  unfolding handle_guest_frame_with_deferred_dns
  deferred-Gated frame now g = elim (Fetch-cases (handle_frame g.l2 frame)) [
    | inl p ↦ rw (handle_guest_frame_with_deferred_dns, p) tt
    | inr (inr (reply, p)) ↦ rw (handle_guest_frame_with_deferred_dns, p) (inl refl)
    | inr (inl p) ↦ elim (plan_cases (plan_dns_frame smol parsers nets messages policy frame)) [
      | inl (result, q) ↦ rw (handle_guest_frame_with_deferred_dns, p, q) (inl refl)
      | inr (inl (pend, q)) ↦ rw (handle_guest_frame_with_deferred_dns, p, q) (inl refl)
      | inr (inr q) ↦
          let kept = handle_non_dns_guest_frame-Gated frame now g in
          elim (Option-cases
            (handle_non_dns_guest_frame smol parsers nets messages policy frame now g)) [
              | inl n ↦ rw (handle_guest_frame_with_deferred_dns, p, q, n) tt
              | inr ((r, g'), n) ↦
                  rw (handle_guest_frame_with_deferred_dns, p, q, n)
                    (non_dns_lem frame g r g' p (subst (Gated frame g) n kept))
            ]
    ]
  ]

  -- Where a frame changes the gateway at all: the L2 gateway has no answer to it, it is no UDP
  -- datagram and not of a refused protocol, and if it is a first SYN, the egress policy admits its
  -- destination. Every other frame leaves the TCP core and its device as they were.
  pub handle_guest_frame_with_deferred_dns-Gated :
      (frame : Bytes) (now : Instant) (g g' : Gateway)
      (r : VmnetDeferredDnsFrame smol parsers nets messages)
      → handle_guest_frame_with_deferred_dns smol parsers nets messages policy frame now g
        ≡ some (r, g')
      → (g' ≡ g) ⊎ ((handle_frame g.l2 frame ≡ Fetch.absent) × Passed frame)
  handle_guest_frame_with_deferred_dns-Gated frame now g g' r e =
      subst (DeferredGated frame g) e (deferred-Gated frame now g)
