-- ===== src/Payload/Decoder.antt =====
-- What the frame decoder of payload-protocol/src/lib.rs does with a byte stream that arrives in
-- pieces.
use wrapper.Common.{
  ℕ, ◌%◌, ◌^◌, ◌≤◌, ◌<◌, ◌≡◌, refl, sym, ◌∙◌, List, [], ◌∷◌, ◌++◌, none, some, Bytes, from_be32,
  ltb, length, take, drop, if◌then◌else◌, arith, length-append, length-drop, take-append,
  drop-append, from_be32-be32, take-le-append, drop-le-append,
}
use wrapper.Payload.{
  Frame, FrameError, payload_too_large, ok, err, max_frame_payload, encode, take_frame,
}

abbrev pub Fits : Frame → Type 0
Fits f = length f.payload ≤ max_frame_payload

abbrev pub AllFit : List Frame → Type 0
AllFit [] = Unit {0}
AllFit (f ∷ fs) = Fits f × AllFit fs

abbrev pub encode_all : List Frame → Bytes
encode_all [] = []
encode_all (f ∷ fs) = encode f ++ encode_all fs

-- No frame is complete at the head of the buffer, and none is refused.
abbrev pub Stalls : Bytes → Type 0
Stalls b = take_frame b ≡ ok none

-- One round, on a buffer that holds a header.
pub take_frame-cons :
    (h0 h1 h2 h3 h4 n : ℕ) (r : Bytes)
    → n ≡ from_be32 h1 h2 h3 h4
    → take_frame (h0 ∷ h1 ∷ h2 ∷ h3 ∷ h4 ∷ r) ≡ (
        if ltb max_frame_payload n
        then err (payload_too_large n max_frame_payload)
        else if ltb (length r) n
        then ok none
        else ok (some (record { kind = h0; payload = take n r }, drop n r)))
unfolding take_frame
take_frame-cons h0 h1 h2 h3 h4 n r e = ground arith

pub take_frame-encode :
    (f : Frame) (rest : Bytes) → Fits f → take_frame (encode f ++ rest) ≡ ok (some (f, rest))
unfolding encode
take_frame-encode f rest h =
    rw
      (take_frame-cons f.kind _ _ _ _ (length f.payload) (f.payload ++ rest)
        (sym (from_be32-be32 (length f.payload % 2 ^ 32) (omega arith) ∙ omega arith)))
      (ground (
        arith,
        length-append f.payload rest,
        take-append f.payload rest,
        drop-append f.payload rest,
      ))

pub length-take_frame :
    (b : Bytes) (f : Frame) (rest : Bytes)
    → take_frame b ≡ ok (some (f, rest))
    → length rest < length b
length-take_frame (h0 ∷ h1 ∷ h2 ∷ h3 ∷ h4 ∷ r) f rest h = ground (
  arith,
  take_frame-cons h0 h1 h2 h3 h4 (from_be32 h1 h2 h3 h4) r refl,
  length-drop (from_be32 h1 h2 h3 h4) r,
)
length-take_frame b f rest h = unfold take_frame in cc h

-- What one round finds at the head of a buffer does not depend on the bytes behind it.
pub take_frame-append_ok :
    (b c : Bytes) (f : Frame) (rest : Bytes)
    → take_frame b ≡ ok (some (f, rest))
    → take_frame (b ++ c) ≡ ok (some (f, rest ++ c))
take_frame-append_ok (h0 ∷ h1 ∷ h2 ∷ h3 ∷ h4 ∷ r) c f rest h =
    let n = from_be32 h1 h2 h3 h4 in
    ground (
      arith,
      take_frame-cons h0 h1 h2 h3 h4 n r refl,
      take_frame-cons h0 h1 h2 h3 h4 n (r ++ c) refl,
      length-append r c,
      take-le-append n r c,
      drop-le-append n r c,
    )
take_frame-append_ok b c f rest h = unfold take_frame in cc h

pub take_frame-append_err :
    (b c : Bytes) (e : FrameError) → take_frame b ≡ err e → take_frame (b ++ c) ≡ err e
take_frame-append_err (h0 ∷ h1 ∷ h2 ∷ h3 ∷ h4 ∷ r) c e h =
    let n = from_be32 h1 h2 h3 h4 in
    ground (
      arith,
      take_frame-cons h0 h1 h2 h3 h4 n r refl,
      take_frame-cons h0 h1 h2 h3 h4 n (r ++ c) refl,
    )
take_frame-append_err b c e h = unfold take_frame in cc h
