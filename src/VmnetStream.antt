-- ===== src/VmnetStream.antt =====
-- QemuFrameIo of vm-frontend/src/vmnet_stream.rs: Ethernet frames behind a length of four bytes, on a
-- stream. The stream is the list of what its reads give, and its end after them. A read of a chunk
-- gives one whole element, at most a chunk of bytes; a read of an exact count may leave the rest of
-- one to the next read.
pub mod Frames
pub mod Kept
pub mod Blocking
pub mod Tests
use wrapper.Common.{
  ℕ, zero, suc, ◌+◌, ◌-◌, ◌^◌, ◌≡◌, Bool, true, false, ◌&&◌, ◌||◌, Option, none, some, List, [],
  ◌∷◌, ◌++◌, Bytes, length, take, drop, ltb, ◌==◌, from_be32, be32, if◌then◌else◌,
}

abbrev pub default_max_frame_len : ℕ
default_max_frame_len = 65535

abbrev usize_max : ℕ
usize_max = 2 ^ 64 - 1

pub data ErrorKind : Type 0 where
  kind_would_block kind_timed_out kind_other : ErrorKind

abbrev pub would_block : ErrorKind → Bool
would_block kind_would_block = true
would_block kind_timed_out = true
would_block kind_other = false

pub data ReadEvent : Type 0 where
  got : Bytes → ReadEvent
  read_error : ErrorKind → ReadEvent

pub data VmnetStreamError : Type 0 where
  io : ErrorKind → VmnetStreamError
  truncated_length : ℕ → VmnetStreamError
  truncated_frame : VmnetStreamError
  invalid_frame_length : (length max : ℕ) → VmnetStreamError
  frame_too_large : (length max : ℕ) → VmnetStreamError

pub data FrameRead : Type 0 where
  frame : Bytes → FrameRead
  blocked : FrameRead
  eof : FrameRead

pub data Outcome {ℓ} (A : Type ℓ) : Type ℓ where
  ok : A → Outcome A
  err : VmnetStreamError → Outcome A

-- The buffer and the stream behind the call; `max_frame_len` is the section's parameter.
pub record QemuFrameIo : Type 0 where
  pub read_buf : Bytes
  pub stream : List ReadEvent

module _ (max_frame_len : ℕ) where
  -- The length is no frame's.
  abbrev pub refuses : ℕ → Bool
  refuses n = n == 0 || ltb max_frame_len n

  -- `pop_buffered_frame`, with the buffer after the call.
  unfoldable pub pop_buffered_frame : Bytes → Outcome (Option Bytes) × Bytes
  pop_buffered_frame (a ∷ b ∷ c ∷ d ∷ rest) =
      let n = from_be32 a b c d in
      if refuses n
      then (err (invalid_frame_length n max_frame_len), a ∷ b ∷ c ∷ d ∷ rest)
      else if ltb (length rest) n
      then (ok none, a ∷ b ∷ c ∷ d ∷ rest)
      else (ok (some (take n rest)), drop n rest)
  pop_buffered_frame read_buf = (ok none, read_buf)

  abbrev at_end : Bytes → Outcome FrameRead
  at_end [] = ok eof
  at_end (b ∷ bs) = err truncated_frame

  abbrev pub on_error : ErrorKind → Outcome FrameRead
  on_error e = if would_block e then ok blocked else err (io e)

  abbrev pub popped :
      Outcome (Option Bytes) × Bytes
      → List ReadEvent
      → Outcome FrameRead × QemuFrameIo
      → Outcome FrameRead × QemuFrameIo
  popped (ok none, buf) stream otherwise = otherwise
  popped (ok (some f), buf) stream otherwise =
      (ok (frame f), record { read_buf = buf; stream = stream })
  popped (err e, buf) stream otherwise = (err e, record { read_buf = buf; stream = stream })

  -- The loop of `try_read_frame`.
  unfoldable pub try_read_loop : Bytes → List ReadEvent → Outcome FrameRead × QemuFrameIo
  unfolding pop_buffered_frame
  try_read_loop buf [] = (at_end buf, record { read_buf = buf; stream = [] })
  try_read_loop buf (read_error e ∷ stream) =
      (on_error e, record { read_buf = buf; stream = stream })
  try_read_loop buf (got [] ∷ stream) = (at_end buf, record { read_buf = buf; stream = stream })
  try_read_loop buf (got (b ∷ bs) ∷ stream) =
      popped (pop_buffered_frame (buf ++ b ∷ bs)) stream (try_read_loop (buf ++ b ∷ bs) stream)

  unfoldable pub try_read_frame : QemuFrameIo → Outcome FrameRead × QemuFrameIo
  unfolding try_read_loop
  try_read_frame q =
      popped (pop_buffered_frame q.read_buf) q.stream (try_read_loop q.read_buf q.stream)

  abbrev at_end_async : Bytes → Outcome FrameRead
  at_end_async buf =
      if length buf == 0
      then ok eof
      else if ltb (length buf) 4
      then err (truncated_length (length buf))
      else err truncated_frame

  -- The loop of `read_frame_async`; `eof` stands for its `None`.
  unfoldable pub read_async_loop : Bytes → List ReadEvent → Outcome FrameRead × QemuFrameIo
  unfolding pop_buffered_frame
  read_async_loop buf [] = (at_end_async buf, record { read_buf = buf; stream = [] })
  read_async_loop buf (read_error e ∷ stream) =
      (err (io e), record { read_buf = buf; stream = stream })
  read_async_loop buf (got [] ∷ stream) =
      (at_end_async buf, record { read_buf = buf; stream = stream })
  read_async_loop buf (got (b ∷ bs) ∷ stream) =
      popped (pop_buffered_frame (buf ++ b ∷ bs)) stream (read_async_loop (buf ++ b ∷ bs) stream)

  unfoldable pub read_frame_async : QemuFrameIo → Outcome FrameRead × QemuFrameIo
  unfolding read_async_loop
  read_frame_async q =
      popped (pop_buffered_frame q.read_buf) q.stream (read_async_loop q.read_buf q.stream)

  -- `write_frame` and `write_frame_async`, for what `write_all` does to the state of the stream.
  module _ {ℓ} {Sink : Type ℓ} (write_all : Bytes → Sink → Option ErrorKind × Sink) where
    abbrev pub after_write : Option ErrorKind × Sink → Outcome (Unit {0}) × Sink
    after_write (none, s) = (ok tt, s)
    after_write (some e, s) = (err (io e), s)

    abbrev pub write_parts : Bytes → Option ErrorKind × Sink → Outcome (Unit {0}) × Sink
    write_parts payload (none, s) = after_write (write_all payload s)
    write_parts payload (some e, s) = (err (io e), s)

    unfoldable pub write_frame : Bytes → Sink → Outcome (Unit {0}) × Sink
    write_frame payload s =
        if ltb (2 ^ 32 - 1) (length payload)
        then (err (frame_too_large usize_max max_frame_len), s)
        else if refuses (length payload)
        then (err (frame_too_large (length payload) max_frame_len), s)
        else write_parts payload (write_all (be32 (length payload)) s)

-- The result of the reads for an exact count: all of it, or the bytes before the end.
pub data Exact : Type 0 where
  filled : Bytes → List ReadEvent → Exact
  ended : Bytes → List ReadEvent → Exact
  exact_error : ErrorKind → List ReadEvent → Exact

-- The loops of `read_exact_or_eof` and of `read_payload_exact`: `need` bytes are missing.
unfoldable pub exact_loop : (need : ℕ) → Bytes → List ReadEvent → Exact
exact_loop zero received stream = filled received stream
exact_loop (suc n) received [] = ended received []
exact_loop (suc n) received (read_error e ∷ stream) = exact_error e stream
exact_loop (suc n) received (got [] ∷ stream) = ended received stream
exact_loop (suc n) received (got (b ∷ bs) ∷ stream) =
    let size = length (b ∷ bs) in
    let rest = exact_loop (suc n - size) (received ++ b ∷ bs) stream in
    if ltb (suc n) size
    then filled (received ++ take (suc n) (b ∷ bs)) (got (drop (suc n) (b ∷ bs)) ∷ stream)
    else rest

module _ (max_frame_len : ℕ) where
  abbrev pub read_payload : Exact → Outcome (Option Bytes) × List ReadEvent
  read_payload (filled payload stream) = (ok (some payload), stream)
  read_payload (ended received stream) = (err truncated_frame, stream)
  read_payload (exact_error e stream) = (err (io e), stream)

  abbrev pub read_behind : Exact → Outcome (Option Bytes) × List ReadEvent
  read_behind (filled (a ∷ b ∷ c ∷ d ∷ _) stream) =
      let n = from_be32 a b c d in
      if refuses max_frame_len n
      then (err (invalid_frame_length n max_frame_len), stream)
      else read_payload (exact_loop n [] stream)
  read_behind (filled _ stream) = (ok none, stream)
  read_behind (ended [] stream) = (ok none, stream)
  read_behind (ended (b ∷ bs) stream) = (err (truncated_length (length (b ∷ bs))), stream)
  read_behind (exact_error e stream) = (err (io e), stream)

  -- `read_frame`, the blocking read. The header of four bytes is always filled with four.
  unfoldable pub read_frame : List ReadEvent → Outcome (Option Bytes) × List ReadEvent
  unfolding exact_loop
  read_frame stream = read_behind (exact_loop 4 [] stream)
