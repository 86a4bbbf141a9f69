-- ===== src/Payload.antt =====
-- payload-protocol/src/lib.rs: the frames between the guest service and the payload client.
-- `usize` is 64 bits wide, so `5 + length` does not wrap.

pub mod Decoder
pub mod Loop
pub mod Stream
pub mod Async
pub mod Tests
use wrapper.Common.{
  ℕ, zero, suc, ◌+◌, ◌*◌, ◌%◌, ◌^◌, List, [], ◌∷◌, ◌++◌, Option, none, some, Bytes, be32, from_be32,
  ltb, length, take, drop, ◌==◌, if◌then◌else◌,
}

abbrev pub max_frame_payload : ℕ
max_frame_payload = 16 * 1024 * 1024

abbrev pub frame_header_len : ℕ
frame_header_len = 5

-- `FrameKind(u8)`.
abbrev pub FrameKind : Type 0
FrameKind = ℕ

abbrev pub output_kind : FrameKind
output_kind = b'O'

abbrev pub exit_kind : FrameKind
exit_kind = b'X'

abbrev pub failure_kind : FrameKind
failure_kind = b'F'

pub record Frame : Type 0 where
  pub kind : FrameKind
  pub payload : Bytes

pub data FrameError : Type 0 where
  payload_too_large : ℕ → ℕ → FrameError
  incomplete_frame : ℕ → ℕ → FrameError

pub data Result {ℓ} (A : Type ℓ) : Type ℓ where
  ok : A → Result A
  err : FrameError → Result A

infixl 5 ◌>>=◌
abbrev pub ◌>>=◌ {ℓ κ} : {A : Type ℓ} {B : Type κ} → Result A → (A → Result B) → Result B
ok a >>= f = f a
err e >>= f = err e

-- `Frame::new`.
unfoldable pub new_frame : FrameKind → Bytes → Result Frame
new_frame kind payload =
    if ltb max_frame_payload (length payload)
    then err (payload_too_large (length payload) max_frame_payload)
    else ok (record { kind = kind; payload = payload })

-- `Frame::encode`; the cast `as u32` keeps the low 32 bits.
unfoldable pub encode : Frame → Bytes
encode frame = frame.kind ∷ (be32 (length frame.payload % 2 ^ 32) ++ frame.payload)

unfoldable pub encode_frame : FrameKind → Bytes → Result Bytes
unfolding new_frame encode
encode_frame kind payload = do frame ← new_frame kind payload; ok (encode frame)

-- The header is an array of five bytes.
unfoldable pub decode_header : ℕ → ℕ → ℕ → ℕ → ℕ → Result (FrameKind × ℕ)
decode_header h0 h1 h2 h3 h4 =
    if ltb max_frame_payload (from_be32 h1 h2 h3 h4)
    then err (payload_too_large (from_be32 h1 h2 h3 h4) max_frame_payload)
    else ok (h0, from_be32 h1 h2 h3 h4)

-- `FrameDecoder`: its only field is the buffer.
pub record FrameDecoder : Type 0 where
  pub buffer : Bytes

abbrev pub new_decoder : FrameDecoder
new_decoder = record { buffer = [] }

unfoldable pub peek_header : Bytes → Result (Option (FrameKind × ℕ))
unfolding decode_header
peek_header (h0 ∷ h1 ∷ h2 ∷ h3 ∷ h4 ∷ rest) = do
  header ← decode_header h0 h1 h2 h3 h4
  ok (some header)
peek_header _ = ok none

-- One round of the loop of `push`: the frame at the head of the buffer and what follows it, or
-- `none` where the loop breaks.
unfoldable pub take_frame : Bytes → Result (Option (Frame × Bytes))
unfolding peek_header
take_frame buffer = do
  header ← peek_header buffer
  elim header [
    | none ↦ ok none
    | some (kind, len) ↦
        if ltb (length buffer) (frame_header_len + len)
        then ok none
        else let rest = drop frame_header_len buffer in
          ok (some (record { kind = kind; payload = take len rest }, drop len rest))
  ]

-- The loop, on the frames taken so far; at an error the buffer stays as it is. Each round drops a
-- header at least, so the length of the buffer bounds the rounds.
unfoldable pub push_loop : ℕ → Bytes → List Frame → Result (List Frame) × Bytes
push_loop zero buffer frames = (ok frames, buffer)
push_loop (suc fuel) buffer frames = elim (take_frame buffer) [
  | err e ↦ (err e, buffer)
  | ok none ↦ (ok frames, buffer)
  | ok (some (frame, rest)) ↦ push_loop fuel rest (frames ++ frame ∷ [])
]

abbrev pub Pushed : Type 0
Pushed = Result (List Frame) × FrameDecoder

unfoldable pub push : FrameDecoder → Bytes → Pushed
push d bytes =
    let (r, buffer) = push_loop (length (d.buffer ++ bytes)) (d.buffer ++ bytes) [] in
    (r, record { buffer = buffer })

-- `peek_header` after the length test, where the source says `expect`; `none` is its panic.
unfoldable pub finish : FrameDecoder → Option (Result (Unit {0}))
finish d =
    if length d.buffer == 0
    then some (ok tt)
    else if ltb (length d.buffer) frame_header_len
    then some (err (incomplete_frame (length d.buffer) frame_header_len))
    else elim (peek_header d.buffer) [
      | err e ↦ some (err e)
      | ok none ↦ none
      | ok (some (kind, len)) ↦
          some (err (incomplete_frame (length d.buffer) (frame_header_len + len)))
    ]
