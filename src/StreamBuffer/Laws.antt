-- ===== src/StreamBuffer/Laws.antt =====
-- Nothing is lost, reordered or duplicated by the loop of vm-frontend/src/stream_buffer.rs, and the
-- limits hold.
use wrapper.Common.{
  ℕ, ◌+◌, ◌-◌, ◌≤◌, ◌<◌, ◌≡◌, refl, ap, ◌∙◌, List, [], ◌∷◌, ◌++◌, Bytes, ltb, ◌==◌, length, take,
  drop, min, arith, append_assoc, take-append-drop, length-append, length-take, length-drop, inl,
  inr, ◌⊎◌, Bool-cases,
}
use wrapper.StreamBuffer.{
  usize_max, within, over, extend_pending_buffer, IoResult, done, io_error, WriteOutcome, accepted,
  write_would_block, write_error, Connection, Written, goes_on, count_of, write_loop,
  write_pending_best_effort,
}

-- A buffer within a limit that a `usize` can hold stays within it: the bytes are appended exactly
-- when the sum fits, and otherwise the buffer is as before and the error names the limit.
pub extend_pending_buffer_lem :
    (pending bytes : Bytes) (limit : ℕ)
    → limit < usize_max
    → ((length pending + length bytes ≤ limit)
        × (extend_pending_buffer pending bytes limit ≡ (within tt, pending ++ bytes)))
      ⊎ ((limit < length pending + length bytes)
          × (extend_pending_buffer pending bytes limit ≡ (
            over (record {
              limit = limit;
              attempted = min (length pending + length bytes) usize_max;
            }),
            pending,
          )))
unfolding extend_pending_buffer
extend_pending_buffer_lem pending bytes limit h =
    elim (Bool-cases (ltb limit (length pending + length bytes))) [
      | inl big ↦ inr (ground arith, ground arith)
      | inr small ↦ inl (ground arith, ground arith)
    ]

-- The count of a loop that returned one, and the bound that it keeps.
abbrev pub Counts : ℕ → ℕ → ℕ → IoResult ℕ → Type 0
Counts before after max_bytes (done n) = (after ≡ before + n) × (n ≤ max_bytes)
Counts before after max_bytes (io_error e) = Unit {0}

abbrev Kept : Bytes → Bytes → ℕ → ℕ → Written → Type 0
Kept taken pending written max_bytes w =
    (w.connection.taken ++ w.pending ≡ taken ++ pending)
    × Counts (length taken) (length w.connection.taken + written) max_bytes w.outcome

Counts-shift :
    (c before after max_bytes : ℕ) (r : IoResult ℕ)
    → Counts (before + c) (after + c) max_bytes r
    → Counts before after max_bytes r
Counts-shift c before after max_bytes (done n) k = (omega arith, k.1)
Counts-shift c before after max_bytes (io_error e) k = tt

-- One write that took `c` bytes of the pending ones.
Kept-step :
    (c : ℕ) (taken pending : Bytes) (written max_bytes : ℕ) (w : Written)
    → c ≤ length pending
    → Kept (taken ++ take c pending) (drop c pending) (written + c) max_bytes w
    → Kept taken pending written max_bytes w
Kept-step c taken pending written max_bytes w h k =
    let e : length (taken ++ take c pending) ≡ length taken + c =
      omega (arith, length-append taken (take c pending), length-take c pending) in
    let f : length w.connection.taken + (written + c) ≡ length w.connection.taken + written + c =
      omega arith in
    (
      k.0 ∙ rw append_assoc (ap (◌++◌ taken) (take-append-drop c pending)),
      Counts-shift c (length taken) (length w.connection.taken + written) max_bytes w.outcome
          (rw (e, f) at k.1),
    )

write_loop-Kept :
    (script : List WriteOutcome) (taken pending : Bytes) (written max_bytes : ℕ)
    → written ≤ max_bytes
    → Kept taken pending written max_bytes (write_loop script taken pending written max_bytes)
unfolding write_loop
write_loop-Kept [] taken pending written max_bytes h = (refl, (refl, h))
write_loop-Kept (accepted n ∷ script) taken pending written max_bytes h =
    elim (Bool-cases (goes_on pending written max_bytes)) [
      | inr stop ↦ rw (stop, write_loop) (refl, (refl, h))
      | inl go ↦ elim (Bool-cases (count_of n pending written max_bytes == 0)) [
        | inl nothing ↦ rw (go, nothing, write_loop) (refl, (refl, h))
        | inr some_bytes ↦
            rw (go, some_bytes, write_loop)
              (Kept-step (count_of n pending written max_bytes) taken pending written max_bytes
                (write_loop script (taken ++ take (count_of n pending written max_bytes) pending)
                  (drop (count_of n pending written max_bytes) pending)
                  (written + count_of n pending written max_bytes) max_bytes)
                (omega arith)
                (write_loop-Kept script
                  (taken ++ take (count_of n pending written max_bytes) pending)
                  (drop (count_of n pending written max_bytes) pending)
                  (written + count_of n pending written max_bytes) max_bytes (omega arith)))
      ]
    ]
write_loop-Kept (write_would_block ∷ script) taken pending written max_bytes h = ground arith
write_loop-Kept (write_error e ∷ script) taken pending written max_bytes h = ground arith

-- Whatever the connection does, blocking and failing in the middle included, the bytes that it has
-- taken followed by the bytes still pending are those taken before followed by those pending
-- before. A count that is returned is the number of bytes taken, and at most `max_bytes`.
pub write_pending_best_effort_lem :
    (c : Connection) (pending : Bytes) (max_bytes : ℕ)
    → let w = write_pending_best_effort c pending max_bytes in
      (w.connection.taken ++ w.pending ≡ c.taken ++ pending)
      × Counts (length c.taken) (length w.connection.taken) max_bytes w.outcome
unfolding write_pending_best_effort
write_pending_best_effort_lem c pending max_bytes =
    let k = write_loop-Kept c.script c.taken pending 0 max_bytes (omega arith) in
    (
      k.0,
      rw (zero_sum (length (write_loop c.script c.taken pending 0 max_bytes).connection.taken)) at
          k.1,
    )
  where
    zero_sum : (n : ℕ) → n + 0 ≡ n
    zero_sum n = omega arith

-- The connection takes at least one byte at each call.
abbrev pub Eager : List WriteOutcome → Type 0
Eager [] = Unit {0}
Eager (accepted n ∷ script) = (0 < n) × Eager script
Eager (write_would_block ∷ script) = ⊥
Eager (write_error e ∷ script) = ⊥

write_loop-Eager :
    (script : List WriteOutcome) (taken pending : Bytes) (written max_bytes : ℕ)
    → Eager script
    → length pending ≤ length script
    → written ≤ max_bytes
    → (write_loop script taken pending written max_bytes).outcome
      ≡ done (written + min (max_bytes - written) (length pending))
unfolding write_loop
write_loop-Eager [] taken pending written max_bytes e l h = ap done (omega arith)
write_loop-Eager (write_would_block ∷ script) taken pending written max_bytes e l h = absurd e
write_loop-Eager (write_error x ∷ script) taken pending written max_bytes e l h = absurd e
write_loop-Eager (accepted n ∷ script) taken pending written max_bytes e l h =
    elim (Bool-cases (goes_on pending written max_bytes)) [
      | inr stop ↦ rw (stop, write_loop) (ap done (ground arith))
      | inl go ↦ elim (Bool-cases (count_of n pending written max_bytes == 0)) [
        | inl nothing ↦ absurd (ground arith)
        | inr some_bytes ↦
            let p : 0 < count_of n pending written max_bytes = ground arith in
            let d = length-drop (count_of n pending written max_bytes) pending in
            rw (go, some_bytes, write_loop)
              (write_loop-Eager script
                  (taken ++ take (count_of n pending written max_bytes) pending)
                  (drop (count_of n pending written max_bytes) pending)
                  (written + count_of n pending written max_bytes) max_bytes e.1 (omega arith)
                  (omega arith)
                ∙ ap done (omega arith))
      ]
    ]

-- If the connection takes at least a byte at each call, the call writes all that is pending, or
-- `max_bytes` of it.
pub write_pending_best_effort-Eager :
    (c : Connection) (pending : Bytes) (max_bytes : ℕ)
    → Eager c.script
    → length pending ≤ length c.script
    → (write_pending_best_effort c pending max_bytes).outcome
      ≡ done (min max_bytes (length pending))
unfolding write_pending_best_effort
write_pending_best_effort-Eager c pending max_bytes e l =
    write_loop-Eager c.script c.taken pending 0 max_bytes e l (omega arith) ∙ ap done (omega arith)
