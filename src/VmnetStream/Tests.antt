-- ===== src/VmnetStream/Tests.antt =====
-- Concrete streams for vm-frontend/src/vmnet_stream.rs.
use wrapper.Common.{◌≡◌, refl, sym, ap, Option, none, List, [], ◌∷◌, ◌++◌, Bytes, arith}
use wrapper.VmnetStream.{
  ErrorKind, kind_would_block, ReadEvent, read_error, frame, ok, QemuFrameIo, pop_buffered_frame,
  try_read_loop, try_read_frame, write_frame,
}
use wrapper.VmnetStream.Frames.{
  encoded, Fits, arrive, NonEmpty, Delivered, try_read_frame-Delivered,
}
use wrapper.VmnetStream.Kept.{Kept, try_read_frame-Kept}
use wrapper.VmnetStream.Blocking.{WritesAll, try_read_frame-write_frame}

abbrev two_bytes : Bytes
two_bytes = 7 ∷ 8 ∷ []

-- The encoding of two bytes and the first byte of what follows, in three pieces, then a pause.
abbrev pieces : List Bytes
pieces = (0 ∷ 0 ∷ 0 ∷ []) ∷ (2 ∷ 7 ∷ []) ∷ (8 ∷ 0 ∷ []) ∷ []

abbrev pause : List ReadEvent
pause = read_error kind_would_block ∷ []

abbrev io_start : QemuFrameIo
io_start = record { read_buf = []; stream = arrive pieces pause }

two_bytes-Fits : Fits 1500 two_bytes
two_bytes-Fits = (omega arith, (omega arith, omega arith))

pieces-NonEmpty : NonEmpty pieces
pieces-NonEmpty = (omega arith, (omega arith, (omega arith, tt)))

try_read_frame-Delivered_example :
    Delivered 1500 two_bytes
      (0 ∷ [])
      pause
      (try_read_frame 1500 (record { read_buf = []; stream = arrive pieces pause }))
try_read_frame-Delivered_example =
    try_read_frame-Delivered 1500 [] two_bytes (0 ∷ []) pieces pause two_bytes-Fits pieces-NonEmpty
      refl

try_read_frame-Kept_example :
    Kept 1500 (0 ∷ 0 ∷ 0 ∷ 2 ∷ 7 ∷ 8 ∷ 0 ∷ []) (try_read_frame 1500 io_start)
try_read_frame-Kept_example = try_read_frame-Kept 1500 io_start

try_read_io_start : (try_read_frame 1500 io_start).0 ≡ ok (frame two_bytes)
unfolding try_read_frame try_read_loop pop_buffered_frame
try_read_io_start = refl

-- A sink that takes everything.
abbrev write_all_bytes : Bytes → Bytes → Option ErrorKind × Bytes
write_all_bytes bytes s = (none, s ++ bytes)

abbrev content_bytes : Bytes → Bytes
content_bytes s = s

write_all_bytes-WritesAll : WritesAll 1500 write_all_bytes content_bytes
write_all_bytes-WritesAll bytes s h = refl

write_two_bytes : write_frame 1500 write_all_bytes two_bytes [] ≡ (ok tt, encoded two_bytes)
unfolding write_frame
write_two_bytes = refl

try_read_frame-write_frame_example :
    Fits 1500 two_bytes
    × (((write_frame 1500 write_all_bytes two_bytes []).1 ≡ encoded two_bytes)
        × Delivered 1500 two_bytes
            (0 ∷ [])
            pause
            (try_read_frame 1500 (record { read_buf = []; stream = arrive pieces pause })))
try_read_frame-write_frame_example =
    try_read_frame-write_frame 1500 write_all_bytes content_bytes two_bytes (0 ∷ []) [] pieces pause
      write_all_bytes-WritesAll (omega arith) refl (ap (λ o. o.0) write_two_bytes) pieces-NonEmpty
      (ap (λ o. o.1 ++ 0 ∷ []) (sym write_two_bytes))
