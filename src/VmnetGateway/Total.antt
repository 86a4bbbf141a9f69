-- ===== src/VmnetGateway/Total.antt =====
-- No frame of the guest makes the gateway of vm-frontend/src/vmnet_gateway.rs panic.
use wrapper.Common.{
  ◌+◌, ◌≤◌, ◌≡◌, ◌≢◌, refl, ap, subst, not, ◌&&◌, Option, none, some, Bytes, ◌⊎◌, inl, inr,
  Option-cases, arith, is_some, length,
}
use wrapper.Fetch.{
  Fetch, Fetch-cases, NoPanic, NoPanic-absent, NoPanic-present, NoPanic-refuse_if, NoPanic-bind,
  NoPanic-slice, length-slice, slice,
}
use wrapper.Run.{ok}
use wrapper.Policy.{Nets, VmnetPolicy}
use wrapper.L2.{handle_frame}
use wrapper.L2.Safety.{handle_frame-NoPanic}
use wrapper.Dns.{Messages}
use wrapper.Tcp.{
  TcpDestination, TcpDecision, TcpAction, refuse, connect, intercept_http, intercept_https,
  evaluate_tcp_destination,
}
use wrapper.GuestTcp.Sockets.{Handle, Parsers, SmolTcp, SmolTcpLaws, Ethernet, Ip}
use wrapper.GuestTcp.{push_rx, GuestTcpCore, ensure_listener}
use wrapper.GuestTcp.Invariant.{IsValid}
use wrapper.GuestTcp.Listeners.{ensure_listener-Ensured}
use wrapper.GuestTcp.Reached.{poll_core-IsValid}
use wrapper.GuestTcp.Syn.{
  or_absent, is_ipv4, is_tcp, is_syn, tcp_segment, evaluate_tcp_syn_frame,
  parse_tcp_syn_destination, tcp_reset_for_denied_syn,
}
use wrapper.VmnetGateway.{
  VmnetGateway, VmnetDeferredDnsFrame, plan_dns_frame, handle_syn, handle_non_dns_guest_frame,
  handle_guest_frame_with_deferred_dns,
}
use wrapper.VmnetGateway.Frames.{udp_denial_from_frame, unsupported_protocol_from_frame}
use wrapper.VmnetGateway.Gate.{plan_cases}

-- A header that the parsers accept lies within what they were given.
pub record ParserLaws (parsers : Parsers) : Type 0 where
  pub ethernet_repr-length :
      (frame : Bytes) (e : Ethernet)
      → parsers.ethernet_repr frame ≡ some e
      → parsers.ethernet_len ≤ length frame
  pub ip_repr-length :
      (packet : Bytes) (ip : Ip)
      → parsers.ip_repr packet ≡ some ip
      → parsers.ip_len ip ≤ length packet

NoPanic-or_absent {ℓ} : {A : Type ℓ} (o : Option A) → NoPanic (or_absent o)
NoPanic-or_absent none = NoPanic-absent
NoPanic-or_absent (some a) = NoPanic-present a

or_absent-some {ℓ} :
    {A : Type ℓ} (o : Option A) (a : A) → or_absent o ≡ Fetch.present a → o ≡ some a
or_absent-some none a e = ground arith
or_absent-some (some b) a e = ap (λ m. elim m [ Fetch.present c ↦ some c | _ ↦ none ]) e

action_cases :
    (a : TcpAction)
    → (a ≡ refuse) ⊎ ((a ≡ connect) ⊎ ((a ≡ intercept_http) ⊎ (a ≡ intercept_https)))
action_cases refuse = inl refl
action_cases connect = inr (inl refl)
action_cases intercept_http = inr (inr (inl refl))
action_cases intercept_https = inr (inr (inr refl))

module _ (parsers : Parsers) (bounds : ParserLaws parsers) where
  open parsers use {ethernet_repr, ethernet_len, ip_repr, ip_len, tcp_repr}

  tcp_segment-NoPanic : (frame : Bytes) → NoPanic (tcp_segment parsers frame)
  unfolding tcp_segment
  tcp_segment-NoPanic frame =
      NoPanic-bind (or_absent (ethernet_repr frame)) _ (NoPanic-or_absent (ethernet_repr frame))
        λ e p. NoPanic-refuse_if (not (is_ipv4 e.ethertype)) _ λ _.
          let l = bounds.ethernet_repr-length frame e (or_absent-some _ e p) in
          NoPanic-bind (slice frame ethernet_len (length frame)) _
            (NoPanic-slice frame ethernet_len (length frame) l (omega arith))
            λ packet s.
              NoPanic-bind (or_absent (ip_repr packet)) _ (NoPanic-or_absent (ip_repr packet))
                λ ip q. NoPanic-refuse_if (not (is_tcp ip.next_header)) _ λ _.
                  let m = bounds.ip_repr-length packet ip (or_absent-some _ ip q) in
                  let n = length-slice frame ethernet_len (length frame) s in
                  NoPanic-bind (slice frame (ethernet_len + ip_len ip) (length frame)) _
                    (NoPanic-slice frame (ethernet_len + ip_len ip) (length frame)
                      (omega (arith, l, m, n)) (omega arith))
                    λ segment _.
                      NoPanic-bind (or_absent (tcp_repr segment ip.src_addr ip.dst_addr)) _
                        (NoPanic-or_absent (tcp_repr segment ip.src_addr ip.dst_addr))
                        λ t _. NoPanic-present _

  parse_tcp_syn_destination-NoPanic :
      (frame : Bytes) → NoPanic (parse_tcp_syn_destination parsers frame)
  unfolding parse_tcp_syn_destination
  parse_tcp_syn_destination-NoPanic frame =
      NoPanic-bind (tcp_segment parsers frame) _ (tcp_segment-NoPanic frame) λ found _.
        NoPanic-refuse_if (not (is_syn found.2.control && not (is_some found.2.ack_number))) _
          λ _. NoPanic-present _

  tcp_reset_for_denied_syn-NoPanic :
      (frame : Bytes) → NoPanic (tcp_reset_for_denied_syn parsers frame)
  unfolding tcp_reset_for_denied_syn
  tcp_reset_for_denied_syn-NoPanic frame =
      NoPanic-bind (tcp_segment parsers frame) _ (tcp_segment-NoPanic frame)
        λ found _. NoPanic-present _

module _ (smol : SmolTcp) (laws : SmolTcpLaws smol) (parsers : Parsers)
    (bounds : ParserLaws parsers) (nets : Nets) (messages : Messages)
    (policy : VmnetPolicy nets.Net) where
  open smol use {Instant}

  abbrev Gateway : Type 0
  Gateway = VmnetGateway smol parsers nets messages

  abbrev Valid : Gateway → Type 0
  Valid g = IsValid smol laws g.tcp_core

  -- There is a result, and the slots own the sockets after it.
  abbrev Ends {ℓ} : {R : Type ℓ} → Option (R × Gateway) → Type 0
  Ends none = ⊥
  Ends (some (r, g)) = Valid g

  refused_lem :
      (frame : Bytes) (now : Instant) (d : TcpDestination) (decision : TcpDecision) (g : Gateway)
      → decision.action ≡ refuse
      → Valid g
      → Ends (handle_syn smol parsers nets messages policy frame now d decision g)
  refused_lem frame now d decision g e v =
      elim (Fetch-cases (tcp_reset_for_denied_syn parsers frame)) [
        | inl p ↦
            absurd (NoPanic.no_panic (tcp_reset_for_denied_syn-NoPanic parsers bounds frame) p)
        | inr (inl p) ↦ rw (handle_syn, e, p) v
        | inr (inr (reset, p)) ↦ rw (handle_syn, e, p) v
      ]

  accepted_lem :
      (frame : Bytes) (now : Instant) (d : TcpDestination) (decision : TcpDecision) (g : Gateway)
      → decision.action ≢ refuse
      → Valid g
      → Ends (handle_syn smol parsers nets messages policy frame now d decision g)
  accepted_lem frame now d decision g n v = elim (action_cases decision.action) [
    | inl e ↦ absurd (n e)
    | inr c ↦ elim (ensure_listener-Ensured smol laws d.port g.tcp_core v) [
      | inl (any, (h, (e, l))) ↦ continues c h g.tcp_core v e
      | inr (any, inl (x, (p, e))) ↦ elim c [
        | inl a ↦ rw (handle_syn, a, e) v
        | inr (inl a) ↦ rw (handle_syn, a, e) v
        | inr (inr a) ↦ rw (handle_syn, a, e) v
      ]
      | inr (any, inr (h, (core, (e, (l, (w, rest)))))) ↦ continues c h core w e
    ]
  ]
    where
      continues :
          (decision.action ≡ connect)
            ⊎ ((decision.action ≡ intercept_http) ⊎ (decision.action ≡ intercept_https))
          → (h : Handle) (core : GuestTcpCore smol) → IsValid smol laws core
          → ensure_listener smol d.port g.tcp_core ≡ ok (h, core)
          → Ends (handle_syn smol parsers nets messages policy frame now d decision g)
      continues c h core w e =
          let after = poll_core-IsValid smol laws now core (push_rx g.tcp_device frame) w in
          elim c [
            | inl a ↦ rw (handle_syn, a, e) after
            | inr (inl a) ↦ rw (handle_syn, a, e) after
            | inr (inr a) ↦ rw (handle_syn, a, e) after
          ]

  handle_syn-Ends :
      (frame : Bytes) (now : Instant) (d : TcpDestination) (decision : TcpDecision) (g : Gateway)
      → Valid g
      → Ends (handle_syn smol parsers nets messages policy frame now d decision g)
  handle_syn-Ends frame now d decision g v = elim (action_cases decision.action) [
    | inl e ↦ refused_lem frame now d decision g e v
    | inr c ↦ accepted_lem frame now d decision g (λ e. ground arith) v
  ]

  handle_non_dns_guest_frame-Ends :
      (frame : Bytes) (now : Instant) (g : Gateway)
      → Valid g
      → Ends (handle_non_dns_guest_frame smol parsers nets messages policy frame now g)
  unfolding handle_non_dns_guest_frame evaluate_tcp_syn_frame
  handle_non_dns_guest_frame-Ends frame now g v =
      elim (Option-cases (udp_denial_from_frame parsers policy frame)) [
        | inr (denial, e) ↦ rw (handle_non_dns_guest_frame, e) v
        | inl e ↦ elim (Option-cases (unsupported_protocol_from_frame parsers policy frame)) [
          | inr (x, u) ↦ rw (handle_non_dns_guest_frame, e, u) v
          | inl u ↦ elim (Fetch-cases (parse_tcp_syn_destination parsers frame)) [
            | inl p ↦
                absurd (NoPanic.no_panic (parse_tcp_syn_destination-NoPanic parsers bounds frame) p)
            | inr (inl p) ↦
                rw (handle_non_dns_guest_frame, e, u, evaluate_tcp_syn_frame, p)
                  (poll_core-IsValid smol laws now g.tcp_core (push_rx g.tcp_device frame) v)
            | inr (inr (d, p)) ↦
                rw (handle_non_dns_guest_frame, e, u, evaluate_tcp_syn_frame, p)
                  (handle_syn-Ends frame now d (evaluate_tcp_destination nets policy d) g v)
          ]
        ]
      ]

  deferred-Ends :
      (frame : Bytes) (now : Instant) (g : Gateway)
      → Valid g
      → Ends (handle_guest_frame_with_deferred_dns smol parsers nets messages policy frame now g)
  unfolding handle_guest_frame_with_deferred_dns
  deferred-Ends frame now g v = elim (Fetch-cases (handle_frame g.l2 frame)) [
    | inl p ↦ absurd (handle_frame-NoPanic g.l2 frame p)
    | inr (inr (reply, p)) ↦ rw (handle_guest_frame_with_deferred_dns, p) v
    | inr (inl p) ↦
        elim (plan_cases smol parsers nets messages policy
          (plan_dns_frame smol parsers nets messages policy frame)) [
            | inl (result, q) ↦ rw (handle_guest_frame_with_deferred_dns, p, q) v
            | inr (inl (pend, q)) ↦ rw (handle_guest_frame_with_deferred_dns, p, q) v
            | inr (inr q) ↦
                let ends = handle_non_dns_guest_frame-Ends frame now g v in
                elim (Option-cases
                  (handle_non_dns_guest_frame smol parsers nets messages policy frame now g)) [
                    | inl n ↦ absurd (subst Ends n ends)
                    | inr ((r, g'), n) ↦
                        rw (handle_guest_frame_with_deferred_dns, p, q, n) (subst Ends n ends)
                  ]
          ]
  ]

  -- Where the slots of the TCP core own its sockets and the parsers accept only headers that lie
  -- within the frame: no frame makes the gateway panic, it has a result, and the slots own the
  -- sockets after it.
  pub handle_guest_frame_with_deferred_dns-Ends :
      (frame : Bytes) (now : Instant) (g : Gateway)
      → Valid g
      → (r : VmnetDeferredDnsFrame smol parsers nets messages) × ((g' : Gateway)
          × ((handle_guest_frame_with_deferred_dns smol parsers nets messages policy frame now g
                ≡ some (r, g'))
              × Valid g'))
  handle_guest_frame_with_deferred_dns-Ends frame now g v =
      let ends = deferred-Ends frame now g v in
      elim (Option-cases
        (handle_guest_frame_with_deferred_dns smol parsers nets messages policy frame now g)) [
          | inl n ↦ absurd (subst Ends n ends)
          | inr ((r, g'), n) ↦ (r, (g', (n, subst Ends n ends)))
        ]
