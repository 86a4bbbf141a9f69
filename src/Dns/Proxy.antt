-- ===== src/Dns/Proxy.antt =====
-- What DnsProxy of vm-frontend/src/dns_proxy.rs lets through to the upstream, and what it answers.
use wrapper.Common.{
  ◌≡◌, refl, sym, ◌↔◌, subst, true, false, List, [], ◌∷◌, Bytes, String, ◌⊎◌, inl, inr, Bool-cases,
}
use wrapper.Policy.{VmnetPolicy}
use wrapper.Dns.{
  blocked, malformed, DnsProxyResult, ParseOutcome, message, invalid, panicked, Messages,
  payload_has_answer_or_authority_records, DnsForwardRequest, DnsProxyPlan, immediate, forward,
  domain_of, plan_query, plan_udp_payload, Exchange, complete_forward, handle_udp_payload,
}
use wrapper.Dns.Domain.{normalise, domain_allowed}

module _ {ℓ} (messages : Messages) {Net : Type ℓ} (policy : VmnetPolicy Net) where
  open messages use {Message, Query, from_vec, to_vec, queries, name_ascii}

  -- The query has one question, the domain is its normalised name, and the policy admits it.
  abbrev pub Admitted : Bytes → DnsForwardRequest messages → Type 0
  Admitted payload request =
      (payload_has_answer_or_authority_records payload ≡ false)
      × ((from_vec payload ≡ message request.query)
          × (((q : Query) × ((queries request.query ≡ q ∷ [])
                  × (request.domain ≡ normalise (name_ascii q))))
              × (domain_allowed policy request.domain ≡ true)))

  abbrev pub Sound : Bytes → DnsProxyPlan messages → Type 0
  Sound payload (forward request) = Admitted payload request
  Sound payload (immediate result) =
      (result.log.decision ≡ malformed) ⊎ (result.log.decision ≡ blocked)

  plan_query-Sound :
      (payload : Bytes) (query : Message) (qs : List Query)
      → payload_has_answer_or_authority_records payload ≡ false
      → from_vec payload ≡ message query
      → queries query ≡ qs
      → Sound payload (plan_query messages policy query (domain_of messages qs))
  plan_query-Sound payload query [] p v e = inl refl
  plan_query-Sound payload query (q ∷ []) p v e =
      elim (Bool-cases (domain_allowed policy (normalise (name_ascii q)))) [
        | inl a ↦ rw a (p, (v, ((q, (e, refl)), a)))
        | inr d ↦ rw d (inr refl)
      ]
  plan_query-Sound payload query (q ∷ r ∷ qs) p v e = inl refl

  outcome_cases :
      (o : ParseOutcome Message)
      → (o ≡ panicked)
        ⊎ (((e : String) × (o ≡ invalid e)) ⊎ ((query : Message) × (o ≡ message query)))
  outcome_cases panicked = inl refl
  outcome_cases (invalid e) = inr (inl (e, refl))
  outcome_cases (message query) = inr (inr (query, refl))

  plan_udp_payload-Sound :
      (payload : Bytes) → Sound payload (plan_udp_payload messages policy payload)
  unfolding plan_udp_payload
  plan_udp_payload-Sound payload =
      elim (Bool-cases (payload_has_answer_or_authority_records payload)) [
        | inl e ↦ rw e (inl refl)
        | inr p ↦ elim (outcome_cases (from_vec payload)) [
          | inl v ↦ rw (p, v) (inl refl)
          | inr (inl (e, v)) ↦ rw (p, v) (inl refl)
          | inr (inr (query, v)) ↦
              rw (p, v) (plan_query-Sound payload query (queries query) p v refl)
        ]
      ]

  plan_udp_payload-Admitted :
      (payload : Bytes) (request : DnsForwardRequest messages)
      → Admitted payload request
      → plan_udp_payload messages policy payload ≡ forward request
  unfolding plan_udp_payload
  plan_udp_payload-Admitted payload request (p, (v, ((q, (e, d)), a))) = rw (p, v, e, sym d, a) refl

  -- A payload is forwarded exactly with the requests that are admitted for it: no answer or authority
  -- records, a message with one question, whose normalised name the policy allows.
  pub plan_udp_payload_iff :
      (payload : Bytes) (request : DnsForwardRequest messages)
      → (plan_udp_payload messages policy payload ≡ forward request) ↔ Admitted payload request
  plan_udp_payload_iff payload request = (
    (λ h. subst (Sound payload) h (plan_udp_payload-Sound payload)),
    plan_udp_payload-Admitted payload request,
  )

  plan_cases :
      (plan : DnsProxyPlan messages)
      → ((result : DnsProxyResult) × (plan ≡ immediate result))
        ⊎ ((request : DnsForwardRequest messages) × (plan ≡ forward request))
  plan_cases (immediate result) = inl (result, refl)
  plan_cases (forward request) = inr (request, refl)

  module _ {Upstream : Type ℓ} (exchange : Message → Upstream → Exchange messages × Upstream) where
    -- The result and the upstream after the call: the proxy answered by itself, or it made the
    -- exchange of an admitted request.
    abbrev pub Handled : Bytes → Upstream → DnsProxyResult × Upstream → Type ℓ
    Handled payload u (result, after) =
        ((after ≡ u) × ((result.log.decision ≡ malformed) ⊎ (result.log.decision ≡ blocked)))
        ⊎ ((request : DnsForwardRequest messages) × (Admitted payload request
              × ((result ≡ complete_forward messages request (exchange request.query u).0)
                  × (after ≡ (exchange request.query u).1))))

    immediate_lem :
        (payload : Bytes) (u : Upstream) (result : DnsProxyResult)
        → plan_udp_payload messages policy payload ≡ immediate result
        → handle_udp_payload messages policy exchange payload u ≡ (result, u)
    unfolding handle_udp_payload
    immediate_lem payload u result e = rw (handle_udp_payload, e) refl

    forward_lem :
        (payload : Bytes) (u : Upstream) (request : DnsForwardRequest messages)
        → plan_udp_payload messages policy payload ≡ forward request
        → handle_udp_payload messages policy exchange payload u ≡ (
          complete_forward messages request (exchange request.query u).0,
          (exchange request.query u).1,
        )
    unfolding handle_udp_payload
    forward_lem payload u request e = rw (handle_udp_payload, e) refl

    -- handle_udp_payload either answers by itself, logs the query as malformed or blocked and leaves
    -- the upstream as it was, or it makes the exchange of an admitted request, once, and completes it.
    pub handle_udp_payload-Handled :
        (payload : Bytes) (u : Upstream)
        → Handled payload u (handle_udp_payload messages policy exchange payload u)
    handle_udp_payload-Handled payload u =
        elim (plan_cases (plan_udp_payload messages policy payload)) [
          | inl (result, e) ↦
              rw (immediate_lem payload u result e)
                (inl (refl, subst (Sound payload) e (plan_udp_payload-Sound payload)))
          | inr (request, e) ↦ rw (forward_lem payload u request e) (
              inr
                (request, (subst (Sound payload) e (plan_udp_payload-Sound payload), (refl, refl))))
        ]
