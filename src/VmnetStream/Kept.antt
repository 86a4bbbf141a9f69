-- ===== src/VmnetStream/Kept.antt =====
-- No byte of the stream of vm-frontend/src/vmnet_stream.rs is lost by a read.
use wrapper.Common.{
  ℕ, ◌≤◌, ◌<◌, ◌≡◌, refl, sym, ap, ◌∙◌, List, [], ◌∷◌, ◌++◌, some, Bytes, from_be32, ltb, length,
  take, drop, arith, append_assoc, inl, inr, Bool-cases, length-take, take-append-drop,
}
use wrapper.VmnetStream.{
  would_block, ReadEvent, got, read_error, VmnetStreamError, FrameRead, frame, blocked, eof,
  Outcome, ok, err, QemuFrameIo, refuses, pop_buffered_frame, popped, try_read_loop, try_read_frame,
}
use wrapper.VmnetStream.Frames.{pop_cons, pop_cases}

module _ (max_frame_len : ℕ) where
  -- The bytes that the reads of a stream give.
  abbrev pub got_bytes : List ReadEvent → Bytes
  got_bytes [] = []
  got_bytes (got bs ∷ stream) = bs ++ got_bytes stream
  got_bytes (read_error e ∷ stream) = got_bytes stream

  -- A length within the limit, written in four bytes, and as many bytes behind it.
  abbrev pub Framed : (total f after : Bytes) → Type 0
  Framed total f after =
      (a : ℕ) × ((b : ℕ) × ((c : ℕ) × ((d : ℕ) × ((total ≡ a ∷ b ∷ c ∷ d ∷ f ++ after)
              × ((from_be32 a b c d ≡ length f) × ((0 < length f) × (length f ≤ max_frame_len)))))))

  abbrev pub Kept : Bytes → Outcome FrameRead × QemuFrameIo → Type 0
  Kept total (ok (frame f), q) = Framed total f (q.read_buf ++ got_bytes q.stream)
  Kept total (ok blocked, q) = total ≡ q.read_buf ++ got_bytes q.stream
  Kept total (ok eof, q) = total ≡ q.read_buf ++ got_bytes q.stream
  Kept total (err e, q) = total ≡ q.read_buf ++ got_bytes q.stream

  pop-Framed :
      (total f rest : Bytes)
      → pop_buffered_frame max_frame_len total ≡ (ok (some f), rest)
      → Framed total f rest
  pop-Framed (a ∷ b ∷ c ∷ d ∷ r) f rest h =
      let n = from_be32 a b c d in
      let k = sym (pop_cons max_frame_len a b c d n r refl) ∙ h in
      elim (Bool-cases (refuses max_frame_len n)) [
        | inl x ↦ ground arith
        | inr x ↦ elim (Bool-cases (ltb (length r) n)) [
          | inl y ↦ ground arith
          | inr y ↦
              let e1 : take n r ≡ f = ground arith in
              let e2 : drop n r ≡ rest = ground arith in
              let l : n ≡ length f = rw (sym e1) (ground (arith, length-take n r)) in
              (
                a,
                (
                  b,
                  (
                    c,
                    (
                      d,
                      (
                        rw (sym e1, sym e2)
                            (ap (λ t. a ∷ b ∷ c ∷ d ∷ t) (sym (take-append-drop n r))),
                        (l, (ground arith, ground arith)),
                      ),
                    ),
                  ),
                ),
              )
        ]
      ]
  pop-Framed total f rest h = unfold pop_buffered_frame in cc h

  pop_err :
      (b rest : Bytes) (e : VmnetStreamError)
      → pop_buffered_frame max_frame_len b ≡ (err e, rest)
      → rest ≡ b
  pop_err (h0 ∷ h1 ∷ h2 ∷ h3 ∷ r) rest e h =
      let n = from_be32 h0 h1 h2 h3 in ground (arith, pop_cons max_frame_len h0 h1 h2 h3 n r refl)
  pop_err b rest e h = unfold pop_buffered_frame in cc h

  Framed-append :
      (buf f rest more : Bytes) → Framed buf f rest → Framed (buf ++ more) f (rest ++ more)
  Framed-append buf f rest more (a, (b, (c, (d, (e, k))))) =
      (a, (b, (c, (d, (rw e (ap (λ t. a ∷ b ∷ c ∷ d ∷ t) (append_assoc f rest more)), k)))))

  popped-Kept :
      (buf : Bytes) (stream : List ReadEvent) (other : Outcome FrameRead × QemuFrameIo)
      → Kept (buf ++ got_bytes stream) other
      → Kept
          (buf ++ got_bytes stream)
          (popped max_frame_len (pop_buffered_frame max_frame_len buf) stream other)
  popped-Kept buf stream other h =
      elim (pop_cases max_frame_len (pop_buffered_frame max_frame_len buf)) [
        | inl (rest, k) ↦ rw k h
        | inr (inl (f, (rest, k))) ↦
            rw k (Framed-append buf f rest (got_bytes stream) (pop-Framed buf f rest k))
        | inr (inr (e, (rest, k))) ↦ rw (k, pop_err buf rest e k) refl
      ]

  try_read_loop-Kept :
      (buf : Bytes) (stream : List ReadEvent)
      → Kept (buf ++ got_bytes stream) (try_read_loop max_frame_len buf stream)
  unfolding try_read_loop
  try_read_loop-Kept [] [] = refl
  try_read_loop-Kept (b ∷ buf) [] = refl
  try_read_loop-Kept buf (read_error e ∷ stream) = elim (Bool-cases (would_block e)) [
    | inl k ↦ rw k refl
    | inr k ↦ rw k refl
  ]
  try_read_loop-Kept [] (got [] ∷ stream) = refl
  try_read_loop-Kept (b ∷ buf) (got [] ∷ stream) = refl
  try_read_loop-Kept buf (got (c ∷ cs) ∷ stream) =
      rw⁻¹ (append_assoc buf (c ∷ cs) (got_bytes stream)) (
        popped-Kept (buf ++ c ∷ cs) stream (try_read_loop max_frame_len (buf ++ c ∷ cs) stream)
          (try_read_loop-Kept (buf ++ c ∷ cs) stream))

  -- Whatever the reads give, errors and the end of the stream included, try_read_frame loses no byte:
  -- a returned frame is the next one of its declared length, which is within the limit, and the
  -- bytes behind it are kept; with any other outcome, all the bytes are.
  pub try_read_frame-Kept :
      (q : QemuFrameIo) → Kept (q.read_buf ++ got_bytes q.stream) (try_read_frame max_frame_len q)
  unfolding try_read_frame
  try_read_frame-Kept q =
      popped-Kept q.read_buf q.stream (try_read_loop max_frame_len q.read_buf q.stream)
        (try_read_loop-Kept q.read_buf q.stream)
