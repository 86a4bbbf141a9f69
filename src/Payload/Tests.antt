-- ===== src/Payload/Tests.antt =====
-- The theorems on the payload frames at concrete streams.
use mathlib.Core.List.{flatten}
use wrapper.Common.{◌≡◌, refl, List, [], ◌∷◌, ◌++◌, Bytes, arith}
use wrapper.Payload.{Frame, ok, encode, push, new_decoder, take_frame}
use wrapper.Payload.Loop.{continue}
use wrapper.Payload.Stream.{push_all, push_all-encode_all}
use wrapper.Payload.Loop.{push-append}
use wrapper.Payload.Async.{ready, read_frame_async, write_frame_async, read-write_frame_async}

abbrev ping : Frame
ping = record { kind = b'P'; payload = [] }

abbrev hello : Frame
hello = record { kind = b'O'; payload = 104 ∷ 105 ∷ [] }

abbrev pieces : List Bytes
pieces =
    (b'P' ∷ 0 ∷ []) ∷ (0 ∷ 0 ∷ 0 ∷ b'O' ∷ []) ∷ [] ∷ (0 ∷ 0 ∷ 0 ∷ 2 ∷ 104 ∷ 105 ∷ b'K' ∷ []) ∷ []

push_all-encode_all_example :
    push_all new_decoder pieces ≡ (ok (ping ∷ hello ∷ []), record { buffer = b'K' ∷ [] })
unfolding take_frame encode flatten
push_all-encode_all_example =
    push_all-encode_all pieces (ping ∷ hello ∷ []) (b'K' ∷ []) (omega arith) refl refl

push-append_example :
    push new_decoder ((b'P' ∷ 0 ∷ []) ++ (0 ∷ 0 ∷ 0 ∷ []))
    ≡ continue (push new_decoder (b'P' ∷ 0 ∷ [])) (0 ∷ 0 ∷ 0 ∷ [])
push-append_example = push-append new_decoder (b'P' ∷ 0 ∷ []) (0 ∷ 0 ∷ 0 ∷ [])

read-write_frame_async_example : read_frame_async (encode hello ++ 7 ∷ []) ≡ ready (hello, 7 ∷ [])
unfolding write_frame_async encode
read-write_frame_async_example = (read-write_frame_async [] (7 ∷ []) (encode hello) hello refl).2
