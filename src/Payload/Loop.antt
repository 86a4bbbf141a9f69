-- ===== src/Payload/Loop.antt =====
-- The loop of `FrameDecoder::push` (payload-protocol/src/lib.rs): its fuel, and a buffer that grows.

use wrapper.Common.{
  ℕ, zero, suc, ◌≤◌, ◌≡◌, refl, sym, ap, ◌∙◌, List, [], ◌∷◌, ◌++◌, Option, none, some, Bytes,
  length, arith, length-append, append-nil, append_assoc,
}
use wrapper.Payload.{
  Frame, FrameError, Result, ok, err, take_frame, push_loop, push, Pushed, FrameDecoder,
}
use wrapper.Payload.Decoder.{length-take_frame, take_frame-append_ok, take_frame-append_err}

pub data Round (b : Bytes) : Type 0 where
  refused : (e : FrameError) → take_frame b ≡ err e → Round b
  stalled : take_frame b ≡ ok none → Round b
  took : (f : Frame) (rest : Bytes) → take_frame b ≡ ok (some (f, rest)) → Round b

pub take_frame-cases : (b : Bytes) → Round b
take_frame-cases b = go (take_frame b) refl
  where
    go : (r : Result (Option (Frame × Bytes))) → take_frame b ≡ r → Round b
    go (err e) h = refused e h
    go (ok none) h = stalled h
    go (ok (some (f, rest))) h = took f rest h

abbrev pub prepend : List Frame → Result (List Frame) × Bytes → Result (List Frame) × Bytes
prepend fs (ok gs, b) = (ok (fs ++ gs), b)
prepend fs (err e, b) = (err e, b)

pub prepend-prepend :
    (fs gs : List Frame) (r : Result (List Frame) × Bytes)
    → prepend fs (prepend gs r) ≡ prepend (fs ++ gs) r
prepend-prepend fs gs (ok hs, b) = rw (append_assoc fs gs hs)
prepend-prepend fs gs (err e, b) = refl

-- The frames taken before a round only stand in front of the result.
pub push_loop-acc :
    (fuel : ℕ) (b : Bytes) (fs gs : List Frame)
    → push_loop fuel b (fs ++ gs) ≡ prepend fs (push_loop fuel b gs)
unfolding push_loop
push_loop-acc zero b fs gs = refl
push_loop-acc (suc fuel) b fs gs = elim (take_frame-cases b) [
  | refused e h ↦ rw (h, push_loop) refl
  | stalled h ↦ rw (h, push_loop) refl
  | took f rest h ↦
      rw (h, push_loop)
        (rw (append_assoc fs gs (f ∷ [])) (push_loop-acc fuel rest fs (gs ++ f ∷ [])))
]

pub push_loop-nil : (n : ℕ) (fs : List Frame) → push_loop n [] fs ≡ (ok fs, [])
unfolding push_loop take_frame
push_loop-nil zero fs = refl
push_loop-nil (suc n) fs = refl

-- Enough fuel: any two bounds on the length of the buffer give one result.
pub push_loop-fuel :
    (m n : ℕ) (b : Bytes) (fs : List Frame)
    → length b ≤ m
    → length b ≤ n
    → push_loop m b fs ≡ push_loop n b fs
unfolding push_loop
push_loop-fuel zero n [] fs hm hn = sym (push_loop-nil n fs)
push_loop-fuel zero n (x ∷ b) fs hm hn = absurd (omega arith)
push_loop-fuel (suc m) zero [] fs hm hn = push_loop-nil (suc m) fs
push_loop-fuel (suc m) zero (x ∷ b) fs hm hn = absurd (omega arith)
push_loop-fuel (suc m) (suc n) b fs hm hn = elim (take_frame-cases b) [
  | refused e h ↦ rw (h, push_loop) refl
  | stalled h ↦ rw (h, push_loop) refl
  | took f rest h ↦
      rw (h, push_loop)
        (let l = length-take_frame b f rest h in
          push_loop-fuel m n rest (fs ++ f ∷ []) (omega arith) (omega arith))
]

-- More bytes behind a buffer: the loop first does what it does without them.
abbrev pub resume : Bytes → Result (List Frame) × Bytes → Result (List Frame) × Bytes
resume c (ok fs, b) = push_loop (length (b ++ c)) (b ++ c) fs
resume c (err e, b) = (err e, b ++ c)

pub push_loop-append :
    (m n : ℕ) (b c : Bytes) (fs : List Frame)
    → length b ≤ m
    → length (b ++ c) ≤ n
    → push_loop n (b ++ c) fs ≡ resume c (push_loop m b fs)
unfolding push_loop
push_loop-append zero n b c fs hm hn =
    push_loop-fuel n (length (b ++ c)) (b ++ c) fs hn (omega arith)
push_loop-append (suc m) zero [] c fs hm hn =
    rw (push_loop-nil (suc m) fs) (push_loop-fuel zero (length c) c fs hn (omega arith))
push_loop-append (suc m) zero (x ∷ b) c fs hm hn = absurd (omega arith)
push_loop-append (suc m) (suc n) b c fs hm hn = elim (take_frame-cases b) [
  | refused e h ↦ rw (h, push_loop) (rw (take_frame-append_err b c e h, push_loop) refl)
  | stalled h ↦
      rw (h, push_loop) (push_loop-fuel (suc n) (length (b ++ c)) (b ++ c) fs hn (omega arith))
  | took f rest h ↦
      let l = length-take_frame b f rest h in
      rw (h, push_loop)
        (rw (take_frame-append_ok b c f rest h, push_loop)
          (push_loop-append m n rest c (fs ++ f ∷ []) (omega arith)
            (omega (arith, length-append rest c, length-append b c))))
]

-- A second `push` after a first: its frames follow, and after an error only the buffer grows.
abbrev pub behind : List Frame → Pushed → Pushed
behind fs (ok gs, d) = (ok (fs ++ gs), d)
behind fs (err e, d) = (err e, d)

abbrev pub continue : Pushed → Bytes → Pushed
continue (ok fs, d) bytes = behind fs (push d bytes)
continue (err e, d) bytes = (err e, record { buffer = d.buffer ++ bytes })

abbrev pub of_loop : Result (List Frame) × Bytes → Pushed
of_loop (r, b) = (r, record { buffer = b })

pub of_loop-prepend :
    (fs : List Frame) (r : Result (List Frame) × Bytes)
    → of_loop (prepend fs r) ≡ behind fs (of_loop r)
of_loop-prepend fs (ok gs, b) = refl
of_loop-prepend fs (err e, b) = refl

pub push_loop-acc_nil :
    (n : ℕ) (b : Bytes) (fs : List Frame) → push_loop n b fs ≡ prepend fs (push_loop n b [])
push_loop-acc_nil n b fs = ap (push_loop n b) (sym (append-nil fs)) ∙ push_loop-acc n b fs []

pub continue-resume :
    (c : Bytes) (r : Result (List Frame) × Bytes) → of_loop (resume c r) ≡ continue (of_loop r) c
unfolding push
continue-resume c (ok fs, b) =
    ap of_loop (push_loop-acc_nil (length (b ++ c)) (b ++ c) fs)
    ∙ of_loop-prepend fs (push_loop (length (b ++ c)) (b ++ c) [])
continue-resume c (err e, b) = refl

-- Pushing `a` and `b` in one piece has the same frames, error and buffer as pushing `a` and then
-- `b`, where a first push that failed is followed by nothing but the bytes of `b` in the buffer.
pub push-append : (d : FrameDecoder) (a b : Bytes) → push d (a ++ b) ≡ continue (push d a) b
unfolding push
push-append d a b = rw (← append_assoc d.buffer a b) (
    ap of_loop (
      push_loop-append (length (d.buffer ++ a)) (length ((d.buffer ++ a) ++ b)) (d.buffer ++ a) b []
        (omega arith) (omega arith))
    ∙ continue-resume b (push_loop (length (d.buffer ++ a)) (d.buffer ++ a) []))
