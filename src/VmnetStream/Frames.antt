-- ===== src/VmnetStream/Frames.antt =====
-- Frames are read whole and in order from the stream of vm-frontend/src/vmnet_stream.rs, however
-- their bytes arrive, and no byte is lost.
use wrapper.Common.{
  ℕ, ◌^◌, ◌≤◌, ◌<◌, ◌≡◌, refl, sym, ap, ◌∙◌, List, [], ◌∷◌, ◌++◌, Option, none, some, Bytes,
  from_be32, be32, extend_all, ltb, length, take, drop, if◌then◌else◌, arith, length-append,
  take-append, drop-append, from_be32-be32, take-le-append, drop-le-append, append_assoc,
  append-nil, ◌⊎◌, inl, inr,
}
use wrapper.VmnetStream.{
  ReadEvent, got, read_error, VmnetStreamError, invalid_frame_length, FrameRead, frame, Outcome, ok,
  err, QemuFrameIo, refuses, pop_buffered_frame, popped, try_read_loop, try_read_frame,
  read_async_loop, read_frame_async,
}

-- What write_frame puts on the stream.
abbrev pub encoded : Bytes → Bytes
encoded f = be32 (length f) ++ f

-- Pieces of the stream, one read each, before what comes later.
abbrev pub arrive : List Bytes → List ReadEvent → List ReadEvent
arrive [] later = later
arrive (p ∷ ps) later = got p ∷ arrive ps later

abbrev pub NonEmpty : List Bytes → Type 0
NonEmpty [] = Unit {0}
NonEmpty (p ∷ ps) = (0 < length p) × NonEmpty ps

module _ (max_frame_len : ℕ) where
  -- The frame is not empty and not longer than the limit, which is a u32.
  abbrev pub Fits : Bytes → Type 0
  Fits f = (0 < length f) × ((length f ≤ max_frame_len) × (max_frame_len < 2 ^ 32))

  pub pop_cons :
      (a b c d n : ℕ) (r : Bytes)
      → n ≡ from_be32 a b c d
      → pop_buffered_frame max_frame_len (a ∷ b ∷ c ∷ d ∷ r) ≡ (
          if refuses max_frame_len n
          then (err (invalid_frame_length n max_frame_len), a ∷ b ∷ c ∷ d ∷ r)
          else if ltb (length r) n
          then (ok none, a ∷ b ∷ c ∷ d ∷ r)
          else (ok (some (take n r)), drop n r))
  unfolding pop_buffered_frame
  pop_cons a b c d n r e = ground arith

  pop_encoded :
      (f t : Bytes) → Fits f → pop_buffered_frame max_frame_len (encoded f ++ t) ≡ (ok (some f), t)
  pop_encoded f t (h, (k, m)) =
      rw (pop_cons _ _ _ _ (length f) (f ++ t) (sym (from_be32-be32 (length f) (omega arith))))
        (ground (arith, length-append f t, take-append f t, drop-append f t))

  pop-append_ok :
      (b c f rest : Bytes)
      → pop_buffered_frame max_frame_len b ≡ (ok (some f), rest)
      → pop_buffered_frame max_frame_len (b ++ c) ≡ (ok (some f), rest ++ c)
  pop-append_ok (h0 ∷ h1 ∷ h2 ∷ h3 ∷ r) c f rest h =
      let n = from_be32 h0 h1 h2 h3 in
      ground (
        arith,
        pop_cons h0 h1 h2 h3 n r refl,
        pop_cons h0 h1 h2 h3 n (r ++ c) refl,
        length-append r c,
        take-le-append n r c,
        drop-le-append n r c,
      )
  pop-append_ok b c f rest h = unfold pop_buffered_frame in cc h

  pop-append_err :
      (b c rest : Bytes) (e : VmnetStreamError)
      → pop_buffered_frame max_frame_len b ≡ (err e, rest)
      → pop_buffered_frame max_frame_len (b ++ c) ≡ (err e, rest ++ c)
  pop-append_err (h0 ∷ h1 ∷ h2 ∷ h3 ∷ r) c rest e h =
      let n = from_be32 h0 h1 h2 h3 in
      ground (arith, pop_cons h0 h1 h2 h3 n r refl, pop_cons h0 h1 h2 h3 n (r ++ c) refl)
  pop-append_err b c rest e h = unfold pop_buffered_frame in cc h

  pop_none : (b rest : Bytes) → pop_buffered_frame max_frame_len b ≡ (ok none, rest) → rest ≡ b
  pop_none (h0 ∷ h1 ∷ h2 ∷ h3 ∷ r) rest h =
      let n = from_be32 h0 h1 h2 h3 in ground (arith, pop_cons h0 h1 h2 h3 n r refl)
  pop_none b rest h = unfold pop_buffered_frame in cc h

  abbrev pub Pop : Type 0
  Pop = Outcome (Option Bytes) × Bytes

  pub pop_cases :
      (r : Pop)
      → ((rest : Bytes) × (r ≡ (ok none, rest)))
        ⊎ (((f : Bytes) × ((rest : Bytes) × (r ≡ (ok (some f), rest))))
            ⊎ ((e : VmnetStreamError) × ((rest : Bytes) × (r ≡ (err e, rest)))))
  pop_cases (ok none, rest) = inl (rest, refl)
  pop_cases (ok (some f), rest) = inr (inl (f, (rest, refl)))
  pop_cases (err e, rest) = inr (inr (e, (rest, refl)))

  -- With the encoding of a frame that fits ahead, a buffer is short of it, or holds just that frame.
  pop_ahead :
      (b c f t : Bytes)
      → Fits f
      → b ++ c ≡ encoded f ++ t
      → (pop_buffered_frame max_frame_len b ≡ (ok none, b))
        ⊎ ((rest : Bytes) × ((pop_buffered_frame max_frame_len b ≡ (ok (some f), rest))
              × (rest ++ c ≡ t)))
  pop_ahead b c f t h e =
      let whole : pop_buffered_frame max_frame_len (b ++ c) ≡ (ok (some f), t) =
        rw e (pop_encoded f t h) in
      elim (pop_cases (pop_buffered_frame max_frame_len b)) [
        | inl (rest, k) ↦ inl (k ∙ rw (pop_none b rest k) refl)
        | inr (inl (g, (rest, k))) ↦
            let same = sym (pop-append_ok b c g rest k) ∙ whole in
            inr (rest, (rw (sym (ap (λ r. r.0) same)) k, ap (λ r. r.1) same))
        | inr (inr (x, (rest, k))) ↦
            let same = sym (pop-append_err b c rest x k) ∙ whole in
            let never = ap (λ r. r.0) same in ground arith
      ]

  -- The read gave the frame, and what is buffered and still to arrive is `t`.
  abbrev pub Delivered : (f t : Bytes) → List ReadEvent → Outcome FrameRead × QemuFrameIo → Type 0
  Delivered f t later r =
      (r.0 ≡ ok (frame f))
      × ((ps : List Bytes) × (NonEmpty ps
            × ((r.1.stream ≡ arrive ps later) × (r.1.read_buf ++ extend_all ps ≡ t))))

  popped-Delivered :
      (buf f t : Bytes) (ps : List Bytes) (later : List ReadEvent)
      (otherwise : Outcome FrameRead × QemuFrameIo)
      → Fits f
      → NonEmpty ps
      → buf ++ extend_all ps ≡ encoded f ++ t
      → (pop_buffered_frame max_frame_len buf ≡ (ok none, buf) → Delivered f t later otherwise)
      → Delivered f t later
          (popped max_frame_len (pop_buffered_frame max_frame_len buf) (arrive ps later) otherwise)
  popped-Delivered buf f t ps later otherwise h n e go =
      elim (pop_ahead buf (extend_all ps) f t h e) [
        | inl k ↦ rw k (go k)
        | inr (rest, (k, l)) ↦ rw k (refl, (ps, (n, (refl, l))))
      ]

  try_read_loop-Delivered :
      (buf f t : Bytes) (ps : List Bytes) (later : List ReadEvent)
      → Fits f
      → NonEmpty ps
      → buf ++ extend_all ps ≡ encoded f ++ t
      → pop_buffered_frame max_frame_len buf ≡ (ok none, buf)
      → Delivered f t later (try_read_loop max_frame_len buf (arrive ps later))
  unfolding try_read_loop
  try_read_loop-Delivered buf f t [] later h n e k =
      let whole : pop_buffered_frame max_frame_len buf ≡ (ok (some f), t) =
        rw (sym (append-nil buf) ∙ e) (pop_encoded f t h) in
      let never = ap (λ r. r.0) (sym k ∙ whole) in ground arith
  try_read_loop-Delivered buf f t ([] ∷ ps) later h n e k = ground (arith, n.0)
  try_read_loop-Delivered buf f t ((p ∷ bs) ∷ ps) later h n e k =
      let e' = append_assoc buf (p ∷ bs) (extend_all ps) ∙ e in
      popped-Delivered (buf ++ p ∷ bs) f t ps later
        (try_read_loop max_frame_len (buf ++ p ∷ bs) (arrive ps later)) h n.1 e'
        (λ k'. try_read_loop-Delivered (buf ++ p ∷ bs) f t ps later h n.1 e' k')

  -- If what is buffered and what arrives in non-empty pieces begins with the encoding of a non-
  -- empty frame within the limit, which is a u32, try_read_frame returns that frame, and the
  -- bytes behind it are still buffered or to arrive.
  pub try_read_frame-Delivered :
      (buf f t : Bytes) (ps : List Bytes) (later : List ReadEvent)
      → Fits f
      → NonEmpty ps
      → buf ++ extend_all ps ≡ encoded f ++ t
      → Delivered f t later
          (try_read_frame max_frame_len (record { read_buf = buf; stream = arrive ps later }))
  unfolding try_read_frame
  try_read_frame-Delivered buf f t ps later h n e =
      popped-Delivered buf f t ps later (try_read_loop max_frame_len buf (arrive ps later)) h n e
        (λ k. try_read_loop-Delivered buf f t ps later h n e k)

  popped_same :
      (f : Bytes) (r : Pop) (stream : List ReadEvent)
      (other other' : Outcome FrameRead × QemuFrameIo)
      → (other.0 ≡ ok (frame f) → other' ≡ other)
      → (popped max_frame_len r stream other).0 ≡ ok (frame f)
      → popped max_frame_len r stream other' ≡ popped max_frame_len r stream other
  popped_same f (ok none, buf) stream other other' same h = same h
  popped_same f (ok (some g), buf) stream other other' same h = refl
  popped_same f (err e, buf) stream other other' same h = refl

  read_async_loop-try_read_loop :
      (f buf : Bytes) (stream : List ReadEvent)
      → (try_read_loop max_frame_len buf stream).0 ≡ ok (frame f)
      → read_async_loop max_frame_len buf stream ≡ try_read_loop max_frame_len buf stream
  unfolding try_read_loop read_async_loop
  read_async_loop-try_read_loop f [] [] h = ground arith
  read_async_loop-try_read_loop f (b ∷ buf) [] h = ground arith
  read_async_loop-try_read_loop f buf (read_error e ∷ stream) h = ground arith
  read_async_loop-try_read_loop f [] (got [] ∷ stream) h = ground arith
  read_async_loop-try_read_loop f (b ∷ buf) (got [] ∷ stream) h = ground arith
  read_async_loop-try_read_loop f buf (got (c ∷ cs) ∷ stream) h =
      popped_same f (pop_buffered_frame max_frame_len (buf ++ c ∷ cs)) stream
        (try_read_loop max_frame_len (buf ++ c ∷ cs) stream)
        (read_async_loop max_frame_len (buf ++ c ∷ cs) stream)
        (read_async_loop-try_read_loop f (buf ++ c ∷ cs) stream) h

  -- Where try_read_frame returns a frame, read_frame_async on the same buffer and reads returns the
  -- same frame and leaves the same.
  pub read_frame_async-try_read_frame :
      (f : Bytes) (q : QemuFrameIo)
      → (try_read_frame max_frame_len q).0 ≡ ok (frame f)
      → read_frame_async max_frame_len q ≡ try_read_frame max_frame_len q
  unfolding try_read_frame read_frame_async
  read_frame_async-try_read_frame f q h =
      popped_same f (pop_buffered_frame max_frame_len q.read_buf) q.stream
        (try_read_loop max_frame_len q.read_buf q.stream)
        (read_async_loop max_frame_len q.read_buf q.stream)
        (read_async_loop-try_read_loop f q.read_buf q.stream) h
