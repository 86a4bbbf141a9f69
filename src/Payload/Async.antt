-- ===== src/Payload/Async.antt =====
-- `read_frame_async`, `write_frame_async` and `payload_event_from_frame` of
-- payload-protocol/src/lib.rs. A reader is the bytes that it will deliver before its end.
use wrapper.Common.{
  ℕ, ◌≤◌, ◌≡◌, ◌∙◌, sym, ◌∷◌, ◌++◌, Bytes, String, length, take, drop, ltb, ◌==◌, if◌then◌else◌,
  arith, length-append, take-append, drop-append, from_be32, from_be32-be32, ◌%◌, ◌^◌,
}
use wrapper.Payload.{
  Frame, FrameKind, FrameError, payload_too_large, Result, ok, err, encode, decode_header,
  max_frame_payload, output_kind, exit_kind, failure_kind,
}

pub data AsyncFrameError : Type 0 where
  io : AsyncFrameError
  frame : FrameError → AsyncFrameError

pub data AsyncResult {ℓ} (A : Type ℓ) : Type ℓ where
  ready : A → AsyncResult A
  failed : AsyncFrameError → AsyncResult A

infixl 5 ◌>>=◌
abbrev pub ◌>>=◌ {ℓ κ} :
    {A : Type ℓ} {B : Type κ} → AsyncResult A → (A → AsyncResult B) → AsyncResult B
ready a >>= f = f a
failed e >>= f = failed e

-- `?` on a frame error, by its `From` instance.
abbrev pub lift {ℓ} : {A : Type ℓ} → Result A → AsyncResult A
lift (ok a) = ready a
lift (err e) = failed (frame e)

-- `read_exact`: the next `n` bytes, or an IO error at the end of the stream.
abbrev pub read_exact : ℕ → Bytes → AsyncResult (Bytes × Bytes)
read_exact n stream =
    if ltb (length stream) n then failed io else ready (take n stream, drop n stream)

-- The header is `read_exact` of five bytes.
abbrev pub decode : Bytes → AsyncResult (FrameKind × ℕ)
decode (h0 ∷ h1 ∷ h2 ∷ h3 ∷ h4 ∷ rest) = lift (decode_header h0 h1 h2 h3 h4)
decode _ = failed io

unfoldable pub read_frame_async : Bytes → AsyncResult (Frame × Bytes)
unfolding decode_header
read_frame_async reader = do
  (header, reader) ← read_exact 5 reader
  (kind, len) ← decode header
  (payload, reader) ← read_exact len reader
  ready (record { kind = kind; payload = payload }, reader)

-- The writer takes all bytes; a refused frame writes none.
unfoldable pub write_frame_async : Bytes → Frame → AsyncResult Bytes
write_frame_async writer f =
    if ltb max_frame_payload (length f.payload)
    then failed (frame (payload_too_large (length f.payload) max_frame_payload))
    else ready (writer ++ encode f)

read_frame_async-cons :
    (h0 h1 h2 h3 h4 n : ℕ) (r : Bytes)
    → n ≡ from_be32 h1 h2 h3 h4
    → n ≤ max_frame_payload
    → read_frame_async (h0 ∷ h1 ∷ h2 ∷ h3 ∷ h4 ∷ r) ≡ (
        if ltb (length r) n
        then failed io
        else ready (record { kind = h0; payload = take n r }, drop n r))
unfolding read_frame_async
read_frame_async-cons h0 h1 h2 h3 h4 n r e h = ground arith

read_frame_async-encode :
    (f : Frame) (rest : Bytes)
    → length f.payload ≤ max_frame_payload
    → read_frame_async (encode f ++ rest) ≡ ready (f, rest)
unfolding encode
read_frame_async-encode f rest h =
    rw
      (read_frame_async-cons f.kind _ _ _ _ (length f.payload) (f.payload ++ rest)
        (sym (from_be32-be32 (length f.payload % 2 ^ 32) (omega arith) ∙ omega arith)) h)
      (ground (
        arith,
        length-append f.payload rest,
        take-append f.payload rest,
        drop-append f.payload rest,
      ))

-- If `write_frame_async` accepts a frame, the frame fits, its encoding and nothing else is written
-- behind what was written before, and `read_frame_async` gives the frame back from the encoding
-- and leaves all that follows it unread.
pub read-write_frame_async :
    (writer rest written : Bytes) (f : Frame)
    → write_frame_async writer f ≡ ready written
    → (length f.payload ≤ max_frame_payload)
      × (written ≡ writer ++ encode f)
      × (read_frame_async (encode f ++ rest) ≡ ready (f, rest))
unfolding write_frame_async
read-write_frame_async writer rest written f h =
    let fits : length f.payload ≤ max_frame_payload = ground arith in
    (fits, ground arith, read_frame_async-encode f rest fits)

pub data PayloadEvent : Type 0 where
  output : Bytes → PayloadEvent
  exit : ℕ → PayloadEvent
  failure : String → PayloadEvent

pub data PayloadEventError {ℓ} (J : Type ℓ) : Type ℓ where
  json : J → PayloadEventError J
  unexpected_frame_kind : FrameKind → PayloadEventError J

pub data EventResult {ℓ} (J : Type ℓ) : Type ℓ where
  event : PayloadEvent → EventResult J
  refused : PayloadEventError J → EventResult J

pub data Parsed {ℓ} (J : Type ℓ) : Type ℓ where
  exit_code : ℕ → Parsed J
  invalid : J → Parsed J

-- `from_slice` is serde's parser of an `ExitFrame` (its code as an `i32` bit pattern), and `lossy`
-- is `String::from_utf8_lossy`.
unfoldable pub payload_event_from_frame {ℓ} :
    {J : Type ℓ} → (Bytes → Parsed J) → (Bytes → String) → Frame → EventResult J
payload_event_from_frame from_slice lossy f =
    if f.kind == output_kind
    then event (output f.payload)
    else if f.kind == exit_kind
    then (elim (from_slice f.payload) [
      | exit_code code ↦ event (exit code)
      | invalid e ↦ refused (json e)
    ])
    else if f.kind == failure_kind
    then event (failure (lossy f.payload))
    else refused (unexpected_frame_kind f.kind)
