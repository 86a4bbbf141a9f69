-- ===== src/VmnetStream/Blocking.antt =====
-- The blocking reads and the writes of vm-frontend/src/vmnet_stream.rs.
use wrapper.Common.{
  ℕ, ◌-◌, ◌^◌, ◌≤◌, ◌<◌, ◌≡◌, refl, sym, ap, subst, ◌∙◌, false, List, [], ◌∷◌, ◌++◌, Option, none,
  some, Bytes, be32, extend_all, ltb, length, take, drop, arith, length-drop, take-append,
  drop-append, from_be32-be32, take-le-append, drop-le-append, append_assoc, append-nil, inl, inr,
  Bool-cases, take-append-drop,
}
use wrapper.VmnetStream.{
  ErrorKind, ReadEvent, got, Outcome, ok, refuses, write_frame, write_parts, after_write, Exact,
  filled, exact_loop, read_frame, read_behind, try_read_frame,
}
use wrapper.VmnetStream.Frames.{
  encoded, Fits, arrive, NonEmpty, Delivered, try_read_frame-Delivered,
}

-- The reads gave the bytes, and those behind them are still to arrive.
abbrev Filled : (received t : Bytes) → List ReadEvent → Exact → Type 0
Filled received t later r =
    (ps : List Bytes) × (NonEmpty ps
      × ((r ≡ filled received (arrive ps later)) × (extend_all ps ≡ t)))

Filled-cast :
    (a a' t : Bytes) (later : List ReadEvent) (r r' : Exact)
    → a ≡ a'
    → r ≡ r'
    → Filled a t later r
    → Filled a' t later r'
Filled-cast a a' t later r r' ea er k =
    subst (λ y. Filled y t later r') ea (subst (Filled a t later) er k)

exact_loop-Filled :
    (h t received : Bytes) (ps : List Bytes) (later : List ReadEvent)
    → NonEmpty ps
    → extend_all ps ≡ h ++ t
    → Filled (received ++ h) t later (exact_loop (length h) received (arrive ps later))
unfolding exact_loop
exact_loop-Filled [] t received ps later n e = (ps, (n, (rw (append-nil received) refl, e)))
exact_loop-Filled (x ∷ h) t received [] later n e = ground arith
exact_loop-Filled (x ∷ h) t received ([] ∷ ps) later n e = ground (arith, n.0)
exact_loop-Filled (x ∷ h) t received ((b ∷ bs) ∷ ps) later n e =
    let size = length (b ∷ bs) in
    let need = length (x ∷ h) in
    let tk : take need ((b ∷ bs) ++ extend_all ps) ≡ x ∷ h =
      ap (take need) e ∙ take-append (x ∷ h) t in
    let dr : drop need ((b ∷ bs) ++ extend_all ps) ≡ t = ap (drop need) e ∙ drop-append (x ∷ h) t in
    elim (Bool-cases (ltb need size)) [
      | inl k ↦
          let le : need ≤ size = ground arith in
          let tk' : take need (b ∷ bs) ≡ x ∷ h =
            sym (take-le-append need (b ∷ bs) (extend_all ps) le) ∙ tk in
          let dr' = sym (drop-le-append need (b ∷ bs) (extend_all ps) le) ∙ dr in
          (
            drop need (b ∷ bs) ∷ ps,
            (
              (ground (arith, length-drop need (b ∷ bs)), n.1),
              (
                rw k (
                    ap (λ y. filled (received ++ y) (got (drop need (b ∷ bs)) ∷ arrive ps later))
                      tk'),
                dr',
              ),
            ),
          )
      | inr k ↦
          let le : size ≤ need = ground arith in
          let head : take size (x ∷ h) ≡ b ∷ bs =
            sym (take-le-append size (x ∷ h) t le)
            ∙ ap (take size) (sym e)
            ∙ take-append (b ∷ bs) (extend_all ps) in
          let behind : extend_all ps ≡ drop size (x ∷ h) ++ t =
            sym (drop-append (b ∷ bs) (extend_all ps))
            ∙ ap (drop size) e
            ∙ drop-le-append size (x ∷ h) t le in
          let whole : (received ++ b ∷ bs) ++ drop size (x ∷ h) ≡ received ++ x ∷ h =
            append_assoc received (b ∷ bs) (drop size (x ∷ h))
            ∙ ap (λ y. received ++ (y ++ drop size (x ∷ h))) (sym head)
            ∙ ap (λ y. received ++ y) (take-append-drop size (x ∷ h)) in
          Filled-cast _ _ t later _ _ whole (rw (k, length-drop size (x ∷ h)) refl)
            (exact_loop-Filled (drop size (x ∷ h)) t (received ++ b ∷ bs) ps later n.1 behind)
    ]

module _ (max_frame_len : ℕ) where
  -- The frame was read, and `t` is what is still to arrive.
  abbrev pub ReadFrame :
      (f t : Bytes) → List ReadEvent → Outcome (Option Bytes) × List ReadEvent → Type 0
  ReadFrame f t later r =
      (r.0 ≡ ok (some f))
      × ((ps : List Bytes) × (NonEmpty ps × ((r.1 ≡ arrive ps later) × (extend_all ps ≡ t))))

  read_behind-filled :
      (f t : Bytes) (ps : List Bytes) (later : List ReadEvent)
      → Fits max_frame_len f
      → NonEmpty ps
      → extend_all ps ≡ f ++ t
      → ReadFrame f t later (read_behind max_frame_len (filled (be32 (length f)) (arrive ps later)))
  read_behind-filled f t ps later (h, (k, m)) n e =
      let (qs, (nq, (r, x))) = exact_loop-Filled f t [] ps later n e in
      let c : refuses max_frame_len (length f) ≡ false = ground arith in
      rw (from_be32-be32 (length f) (omega arith), c, r) (refl, (qs, (nq, (refl, x))))

  -- If what arrives in non-empty pieces begins with the encoding of a non-empty frame within the
  -- limit, which is a u32, read_frame returns that frame, and exactly the bytes behind it are
  -- still to arrive.
  pub read_frame-ReadFrame :
      (f t : Bytes) (ps : List Bytes) (later : List ReadEvent)
      → Fits max_frame_len f
      → NonEmpty ps
      → extend_all ps ≡ encoded f ++ t
      → ReadFrame f t later (read_frame max_frame_len (arrive ps later))
  unfolding read_frame
  read_frame-ReadFrame f t ps later h n e =
      let (qs, (nq, (r, x))) = exact_loop-Filled (be32 (length f)) (f ++ t) [] ps later n e in
      rw r (read_behind-filled f t qs later h nq x)

  module _ {ℓ} {Sink : Type ℓ} (write_all : Bytes → Sink → Option ErrorKind × Sink)
      (content : Sink → Bytes) where
    -- A successful `write_all` puts all the bytes behind those written before.
    abbrev pub WritesAll : Type ℓ
    WritesAll =
        (bytes : Bytes) (s : Sink)
        → (write_all bytes s).0 ≡ none
        → content (write_all bytes s).1 ≡ content s ++ bytes

    after_write_lem :
        (r : Option ErrorKind × Sink)
        → (after_write max_frame_len write_all r).0 ≡ ok tt
        → (r.0 ≡ none) × ((after_write max_frame_len write_all r).1 ≡ r.1)
    after_write_lem (none, s) h = (refl, refl)
    after_write_lem (some e, s) h = ground arith

    write_parts_lem :
        (f : Bytes) (r : Option ErrorKind × Sink)
        → WritesAll
        → (write_parts max_frame_len write_all f r).0 ≡ ok tt
        → (r.0 ≡ none) × (content (write_parts max_frame_len write_all f r).1 ≡ content r.1 ++ f)
    write_parts_lem f (none, s) law h =
        let (done, same) = after_write_lem (write_all f s) h in
        (refl, ap content same ∙ law f s done)
    write_parts_lem f (some e, s) law h = ground arith

    write_frame_cases :
        (f : Bytes) (s : Sink)
        → (write_frame max_frame_len write_all f s).0 ≡ ok tt
        → (refuses max_frame_len (length f) ≡ false)
          × (write_frame max_frame_len write_all f s
              ≡ write_parts max_frame_len write_all f (write_all (be32 (length f)) s))
    unfolding write_frame
    write_frame_cases f s h = elim (Bool-cases (ltb (2 ^ 32 - 1) (length f))) [
      | inl k ↦ ground arith
      | inr k ↦ elim (Bool-cases (refuses max_frame_len (length f))) [
        | inl r ↦ ground arith
        | inr r ↦ (r, rw (k, r) refl)
      ]
    ]

    write_frame_lem :
        (f : Bytes) (s : Sink)
        → WritesAll
        → max_frame_len < 2 ^ 32
        → (write_frame max_frame_len write_all f s).0 ≡ ok tt
        → Fits max_frame_len f
          × (content (write_frame max_frame_len write_all f s).1 ≡ content s ++ encoded f)
    write_frame_lem f s law m h =
        let (r, w) = write_frame_cases f s h in
        let (d, p) =
          write_parts_lem f (write_all (be32 (length f)) s) law (ap (λ o. o.0) (sym w) ∙ h) in
        (
          (ground arith, (ground arith, m)),
          ap (λ o. content o.1) w
              ∙ p
              ∙ ap (λ y. y ++ f) (law (be32 (length f)) s d)
              ∙ append_assoc (content s) (be32 (length f)) f,
        )

    -- Where write_all, when it succeeds, puts all its bytes behind those written, and the limit
    -- is a u32: if write_frame succeeds on a stream that nothing was written to, the frame is not
    -- empty and within the limit and exactly its encoding was written; and try_read_frame, given
    -- the written bytes and any more in non-empty pieces, returns the frame and keeps those.
    pub try_read_frame-write_frame :
        (f t : Bytes) (s : Sink) (ps : List Bytes) (later : List ReadEvent)
        → WritesAll
        → max_frame_len < 2 ^ 32
        → content s ≡ []
        → (write_frame max_frame_len write_all f s).0 ≡ ok tt
        → NonEmpty ps
        → extend_all ps ≡ content (write_frame max_frame_len write_all f s).1 ++ t
        → Fits max_frame_len f
          × ((content (write_frame max_frame_len write_all f s).1 ≡ encoded f)
              × Delivered max_frame_len f t later (
                  try_read_frame max_frame_len
                    (record { read_buf = []; stream = arrive ps later })))
    try_read_frame-write_frame f t s ps later law m c w n e =
        let (h, k) = write_frame_lem f s law m w in
        let k' = k ∙ ap (λ y. y ++ encoded f) c in
        (
          h,
          (
            k',
            try_read_frame-Delivered max_frame_len [] f t ps later h n (e ∙ ap (λ y. y ++ t) k'),
          ),
        )
