-- ===== src/HostIngress/Accepted.antt =====
-- The accept loop of vm-frontend/src/host_ingress.rs gives what the listener gave, in order and within
-- its limit.
use wrapper.Common.{
  ℕ, zero, suc, ◌≡◌, refl, ap, ◌∙◌, sym, Bool, true, false, none, some, List, [], ◌∷◌, ◌++◌,
  append-nil, append_assoc, is_some, length, take, get_elem?, ◌==◌, inl, inr, if◌then◌else◌,
}
use wrapper.Policy.{HostListener}
use wrapper.HostIngress.Accept.{
  AcceptedHostConnection, IoResult, AcceptOutcome, connected, not_nonblocking, accept_would_block,
  accept_error, accept_loop, accept_ready_limited,
}

module _ {ℓ} {C : Type ℓ} (config : HostListener) where
  -- What the caller is told of the calls.
  abbrev pub results : List (AcceptOutcome C) → List (IoResult (AcceptedHostConnection C))
  results [] = []
  results (connected c ∷ script) =
      inr (record { guest_port = config.guest_port; purpose = config.purpose; connection = c })
      ∷ results script
  results (not_nonblocking e ∷ script) = inl e ∷ results script
  results (accept_would_block ∷ script) = results script
  results (accept_error e ∷ script) = inl e ∷ results script

  -- What the calls give up to the first one that blocks or fails.
  abbrev pub ready_results : List (AcceptOutcome C) → List (IoResult (AcceptedHostConnection C))
  ready_results [] = []
  ready_results (connected c ∷ script) =
      inr (record { guest_port = config.guest_port; purpose = config.purpose; connection = c })
      ∷ ready_results script
  ready_results (not_nonblocking e ∷ script) = inl e ∷ ready_results script
  ready_results (accept_would_block ∷ script) = []
  ready_results (accept_error e ∷ script) = inl e ∷ []

  -- The results are those that the listener has ready, as many as are left to take. The calls that
  -- were made are the first ones, and each that did not block has its result.
  abbrev pub Accepts :
      List (AcceptOutcome C)
      → ℕ
      → List (IoResult (AcceptedHostConnection C))
      → List (AcceptOutcome C)
      → Type ℓ
  Accepts script left accepted rest =
      (accepted ≡ take left (ready_results script))
      × ((made : List (AcceptOutcome C)) × ((script ≡ made ++ rest) × (accepted ≡ results made)))

  abbrev LoopAccepts :
      List (AcceptOutcome C) → ℕ → List (IoResult (AcceptedHostConnection C)) → Type ℓ
  LoopAccepts script left before =
      let r = accept_loop config script left before in
      (new : List (IoResult (AcceptedHostConnection C))) × ((r.0 ≡ before ++ new)
        × Accepts script left new r.1)

  -- A call with the result `a`, and the calls behind it.
  LoopAccepts-step :
      (o : AcceptOutcome C) (script : List (AcceptOutcome C)) (left : ℕ)
      (before : List (IoResult (AcceptedHostConnection C)))
      (a : IoResult (AcceptedHostConnection C))
      → accept_loop config (o ∷ script) (suc left) before
        ≡ accept_loop config script left (before ++ a ∷ [])
      → ready_results (o ∷ script) ≡ a ∷ ready_results script
      → ((made : List (AcceptOutcome C)) → results (o ∷ made) ≡ a ∷ results made)
      → LoopAccepts script left (before ++ a ∷ [])
      → LoopAccepts (o ∷ script) (suc left) before
  LoopAccepts-step o script left before a l e r (new, (p, (t, (made, (s, q))))) = rw l (
    a ∷ new,
    (
      p ∙ append_assoc before (a ∷ []) new,
      (rw e (ap (λ x. a ∷ x) t), (o ∷ made, (ap (λ x. o ∷ x) s, ap (λ x. a ∷ x) q ∙ sym (r made)))),
    ),
  )

  accept_loop-Accepts :
      (script : List (AcceptOutcome C)) (left : ℕ)
      (before : List (IoResult (AcceptedHostConnection C)))
      → LoopAccepts script left before
  unfolding accept_loop
  accept_loop-Accepts [] zero before = ([], (sym (append-nil before), (refl, ([], (refl, refl)))))
  accept_loop-Accepts [] (suc left) before =
      ([], (sym (append-nil before), (refl, ([], (refl, refl)))))
  accept_loop-Accepts (o ∷ script) zero before =
      ([], (sym (append-nil before), (refl, ([], (refl, refl)))))
  accept_loop-Accepts (connected c ∷ script) (suc left) before =
      LoopAccepts-step (connected c) script left before _ refl refl (λ made. refl)
        (accept_loop-Accepts script left _)
  accept_loop-Accepts (not_nonblocking x ∷ script) (suc left) before =
      LoopAccepts-step (not_nonblocking x) script left before (inl x) refl refl (λ made. refl)
        (accept_loop-Accepts script left (before ++ inl x ∷ []))
  accept_loop-Accepts (accept_would_block ∷ script) (suc left) before =
      ([], (sym (append-nil before), (refl, (accept_would_block ∷ [], (refl, refl)))))
  accept_loop-Accepts (accept_error x ∷ script) (suc left) before =
      (inl x ∷ [], (refl, (take_one left, (accept_error x ∷ [], (refl, refl)))))
    where
      take_one : {A : Type ℓ} {a : A} (n : ℕ) → a ∷ [] ≡ take (suc n) (a ∷ [])
      take_one zero = refl
      take_one (suc n) = refl

  -- For the listener at an index, one call of accept_ready_limited gives exactly the first max_accepts
  -- of the results that the listener has ready, in order: those of its calls up to the first one
  -- that blocks, or that fails, which is the last result. It makes the calls that give them, leaves
  -- the later ones, and reports the limit exactly when it gave max_accepts results.
  pub accept_ready_limited-Accepts :
      (listeners : List HostListener) (listener_index : ℕ) (script : List (AcceptOutcome C))
      (max_accepts : ℕ)
      → get_elem? listeners listener_index ≡ some config
      → let r = accept_ready_limited listeners listener_index script max_accepts in
        Accepts script max_accepts r.0.accepted r.1
        × (is_some r.0.limit_reached ≡ (length r.0.accepted == max_accepts))
  unfolding accept_ready_limited
  accept_ready_limited-Accepts listeners listener_index script max_accepts h =
      let (new, (e, a)) = accept_loop-Accepts script max_accepts [] in
      rw (accept_ready_limited, h)
        (rw e a, is_some_if _ (length (accept_loop config script max_accepts []).0 == max_accepts))
    where
      is_some_if : {B : Type 0} (x : B) (b : Bool) → is_some (if b then some x else none) ≡ b
      is_some_if x true = refl
      is_some_if x false = refl
