-- ===== src/Payload/Stream.antt =====
-- Theorems on `FrameDecoder::push` and `finish` over whole streams.
use mathlib.Core.List.{flatten}
use wrapper.Common.{
  ℕ, zero, suc, ◌+◌, ◌≤◌, ◌<◌, ◌≡◌, refl, sym, ap, ◌∙◌, List, [], ◌∷◌, ◌++◌, some, Bytes, length,
  arith, append-nil, append_assoc, inl, inr, ◌⊎◌, from_be32,
}
use wrapper.Payload.{
  Frame, incomplete_frame, payload_too_large, Result, ok, err, encode, take_frame, push_loop, push,
  Pushed, finish, FrameDecoder, new_decoder, peek_header, decode_header, max_frame_payload,
}
use wrapper.Payload.Decoder.{
  AllFit, encode_all, Stalls, take_frame-encode, length-take_frame, take_frame-cons,
}
use wrapper.Payload.Loop.{
  refused, stalled, took, take_frame-cases, of_loop, behind, continue, push-append,
}

push_loop-encode_all :
    (n : ℕ) (fs gs : List Frame) (rest : Bytes)
    → AllFit fs
    → Stalls rest
    → length (encode_all fs ++ rest) ≤ n
    → push_loop n (encode_all fs ++ rest) gs ≡ (ok (gs ++ fs), rest)
unfolding push_loop
push_loop-encode_all zero [] gs rest v s h = rw (append-nil gs)
push_loop-encode_all (suc n) [] gs rest v s h = rw (s, push_loop) (rw (append-nil gs))
push_loop-encode_all zero (f ∷ fs) gs rest v s h = absurd (unfold encode in omega arith)
push_loop-encode_all (suc n) (f ∷ fs) gs rest v s h =
    rw (append_assoc (encode f) (encode_all fs) rest) (
      let t = take_frame-encode f (encode_all fs ++ rest) v.0 in
      let l = length-take_frame (encode f ++ (encode_all fs ++ rest)) f (encode_all fs ++ rest) t in
      rw (t, push_loop)
        (push_loop-encode_all n fs (gs ++ f ∷ []) rest v.1 s
            (omega (arith, ap length (append_assoc (encode f) (encode_all fs) rest)))
          ∙ rw (append_assoc gs (f ∷ []) fs)))

-- Any number of frames that fit, encoded one after the other and followed by the start of a frame
-- that is not complete, come back in order from a decoder, and the start stays in its buffer.
pub push-encode_all :
    (fs : List Frame) (rest : Bytes)
    → AllFit fs
    → Stalls rest
    → push new_decoder (encode_all fs ++ rest) ≡ (ok fs, record { buffer = rest })
unfolding push
push-encode_all fs rest v s =
    ap of_loop (push_loop-encode_all (length (encode_all fs ++ rest)) fs [] rest v s (omega arith))

push_loop-Stalls :
    (n : ℕ) (b : Bytes) (fs gs : List Frame) (r : Bytes)
    → length b ≤ n
    → push_loop n b fs ≡ (ok gs, r)
    → Stalls r
unfolding push_loop
push_loop-Stalls zero [] fs gs r h e =
    unfold take_frame in rw (← ap (λ (p : Result (List Frame) × Bytes). p.1) e)
push_loop-Stalls zero (x ∷ b) fs gs r h e = absurd (omega arith)
push_loop-Stalls (suc n) b fs gs r h e = elim (take_frame-cases b) [
  | refused e' t ↦ cc (rw (t, push_loop) at e)
  | stalled t ↦ cc (rw (t, push_loop) at e, t)
  | took f rest t ↦
      let l = length-take_frame b f rest t in
      push_loop-Stalls n rest (fs ++ f ∷ []) gs r (omega arith) (rw (t, push_loop) at e)
]

abbrev and_then : Pushed → (FrameDecoder → Pushed) → Pushed
and_then (ok fs, d) k = behind fs (k d)
and_then (err e, d) k = (err e, d)

-- The calls that a reader makes: a push for each piece, as long as none fails.
abbrev pub push_all : FrameDecoder → List Bytes → Pushed
push_all d [] = (ok [], d)
push_all d (c ∷ cs) = and_then (push d c) (λ d'. push_all d' cs)

push_loop-stalled : (n : ℕ) (b : Bytes) (fs : List Frame) → Stalls b → push_loop n b fs ≡ (ok fs, b)
unfolding push_loop
push_loop-stalled zero b fs s = refl
push_loop-stalled (suc n) b fs s = rw (s, push_loop) refl

push-nil : (d : FrameDecoder) → Stalls d.buffer → push d [] ≡ (ok [], d)
unfolding push
push-nil d s =
    rw (append-nil d.buffer) (ap of_loop (push_loop-stalled (length d.buffer) d.buffer [] s))

push-Stalls :
    (d e : FrameDecoder) (c : Bytes) (fs : List Frame) → push d c ≡ (ok fs, e) → Stalls e.buffer
unfolding push
push-Stalls d e c fs h =
    push_loop-Stalls (length (d.buffer ++ c)) (d.buffer ++ c) [] fs e.buffer (omega arith)
      (ap (λ (p : Pushed). (p.0, p.1.buffer)) h)

behind-ok :
    (gs fs : List Frame) (p q : Pushed) (e : FrameDecoder)
    → ((hs : List Frame) (e' : FrameDecoder) → p ≡ (ok hs, e') → q ≡ (ok hs, e'))
    → behind gs p ≡ (ok fs, e)
    → behind gs q ≡ (ok fs, e)
behind-ok gs fs (ok hs, e') q e h u = rw (h hs e' refl) u
behind-ok gs fs (err x, e') q e h u = cc u

push_all-eq :
    (cs : List Bytes) (d e : FrameDecoder) (fs : List Frame)
    → Stalls d.buffer
    → push d (flatten cs) ≡ (ok fs, e)
    → push_all d cs ≡ (ok fs, e)
unfolding flatten
push_all-eq [] d e fs s h = sym (push-nil d s) ∙ h
push_all-eq (c ∷ cs) d e fs s h =
    go (push d c) refl (λ d1. push_all-eq cs d1) (sym (push-append d c (flatten cs)) ∙ h)
  where
    go :
        (p : Pushed)
        → push d c ≡ p
        → ((d1 e : FrameDecoder) (fs : List Frame)
            → Stalls d1.buffer
            → push d1 (flatten cs) ≡ (ok fs, e)
            → push_all d1 cs ≡ (ok fs, e))
        → continue p (flatten cs) ≡ (ok fs, e)
        → and_then p (λ d'. push_all d' cs) ≡ (ok fs, e)
    go (ok gs, d1) t ih u =
        behind-ok gs fs (push d1 (flatten cs)) (push_all d1 cs) e
          (λ hs e' r. ih d1 e' hs (push-Stalls d d1 c gs t) r) u
    go (err x, d1) t ih u = cc u

-- However the encoding of frames that fit is cut into pieces, a new decoder that is pushed the
-- pieces one by one gives the frames back in order; an incomplete frame at the end stays buffered.
pub push_all-encode_all :
    (cs : List Bytes) (fs : List Frame) (rest : Bytes)
    → AllFit fs
    → Stalls rest
    → flatten cs ≡ encode_all fs ++ rest
    → push_all new_decoder cs ≡ (ok fs, record { buffer = rest })
push_all-encode_all cs fs rest v s e =
    push_all-eq cs new_decoder (record { buffer = rest }) fs (unfold take_frame in refl)
      (ap (push new_decoder) e ∙ push-encode_all fs rest v s)

-- `push` refuses a header as soon as it is there if it declares more than the limit, whatever
-- follows: the buffer is left as it is, and no payload is taken.
pub push_oversized :
    (h0 h1 h2 h3 h4 : ℕ) (rest : Bytes)
    → max_frame_payload < from_be32 h1 h2 h3 h4
    → push new_decoder (h0 ∷ h1 ∷ h2 ∷ h3 ∷ h4 ∷ rest) ≡ (
      err (payload_too_large (from_be32 h1 h2 h3 h4) max_frame_payload),
      record { buffer = h0 ∷ h1 ∷ h2 ∷ h3 ∷ h4 ∷ rest },
    )
unfolding push push_loop
push_oversized h0 h1 h2 h3 h4 rest h =
    ground (arith, take_frame-cons h0 h1 h2 h3 h4 (from_be32 h1 h2 h3 h4) rest refl)

stalled-header :
    (h0 h1 h2 h3 h4 n : ℕ) (rest : Bytes)
    → n ≡ from_be32 h1 h2 h3 h4
    → Stalls (h0 ∷ h1 ∷ h2 ∷ h3 ∷ h4 ∷ rest)
    → (n ≤ max_frame_payload) × (length rest < n)
stalled-header h0 h1 h2 h3 h4 n rest e s = ground (arith, take_frame-cons h0 h1 h2 h3 h4 n rest e)

finish-header :
    (h0 h1 h2 h3 h4 n : ℕ) (rest : Bytes)
    → n ≡ from_be32 h1 h2 h3 h4
    → n ≤ max_frame_payload
    → finish (record { buffer = h0 ∷ h1 ∷ h2 ∷ h3 ∷ h4 ∷ rest })
      ≡ some (err (incomplete_frame (5 + length rest) (5 + n)))
unfolding finish decode_header peek_header
finish-header h0 h1 h2 h3 h4 n rest e h = ground arith

-- What `finish` has to say of a buffer.
abbrev pub Finishes : Bytes → Type 0
Finishes b =
    ((b ≡ []) × (finish (record { buffer = b }) ≡ some (ok tt)))
    ⊎ ((n : ℕ) × (length b < n)
        × (finish (record { buffer = b }) ≡ some (err (incomplete_frame (length b) n))))

-- On a decoder that has taken all it could, `finish` does not panic. It succeeds on the empty
-- buffer only, and otherwise reports an incomplete frame that needs more than is buffered.
pub finish_lem : (b : Bytes) → Stalls b → Finishes b
unfolding finish
finish_lem [] s = inl (refl, refl)
finish_lem (h0 ∷ h1 ∷ h2 ∷ h3 ∷ h4 ∷ rest) s =
    let n = from_be32 h1 h2 h3 h4 in
    let (small, short) = stalled-header h0 h1 h2 h3 h4 n rest refl s in
    inr (
      5 + n,
      omega arith,
      finish-header h0 h1 h2 h3 h4 n rest refl small
          ∙ ap (λ k. some (err (incomplete_frame k (5 + n)))) (omega arith),
    )
finish_lem b s = inr (5, omega arith, refl)
