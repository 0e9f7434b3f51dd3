-- ===== src/Binary/Protocol/Frames.antt =====
-- The frame around a message: what open_frame answers on the frame that encode_with_header wrote,
-- whole, cut short or with bytes behind it.
use mathlib.Core.List.{append-nil}
use opcuapp.Base.{
  ℕ, ◌+◌, ◌^◌, ◌≤◌, ◌<◌, ◌≡◌, none, some, List, [], ◌∷◌, ◌++◌, arith, length, length-append,
  is_empty, if◌then◌else◌,
}
use opcuapp.Binary.Protocol.{
  MessageType, hello, FrameHeader, decode_frame_header, encode_frame_header, encode_with_header,
  open_frame,
}

-- A filler that only appends.
abbrev pub Appends : (List ℕ → List ℕ) → Type 0
Appends fill = (bytes : List ℕ) → fill bytes ≡ bytes ++ fill []

-- A frame header whose size is a 32-bit number of at least eight is read back as it was written.
pub decode-encode_frame_header :
    (h : FrameHeader)
    → 8 ≤ h.message_size
    → h.message_size < 2 ^ 32
    → decode_frame_header (encode_frame_header h) ≡ some h
unfolding decode_frame_header encode_frame_header
decode-encode_frame_header h lo hi =
    elim h.message_type
      as (λ t.
        decode_frame_header (encode_frame_header (record h { message_type = t }))
        ≡ some (record h { message_type = t })) [ hello ↦ ground arith | _ ↦ ground arith ]

-- On the frame that `encode_with_header` wrote around fewer than 2 ^ 32 - 8 bytes `open_frame` gives
-- those bytes back, and with anything behind it the frame is refused.
pub open_frame-encode :
    (t : MessageType) (fill : List ℕ → List ℕ) (extra : List ℕ)
    → Appends fill
    → length (fill []) + 8 < 2 ^ 32
    → open_frame t (encode_with_header t fill ++ extra)
      ≡ (if is_empty extra then some (fill []) else none)
unfolding open_frame encode_with_header
open_frame-encode hello fill [] a h = rw (a, append-nil) (ground arith)
open_frame-encode _ fill [] a h = rw (a, append-nil) (ground arith)
open_frame-encode hello fill (x ∷ extra) a h =
    rw a (ground (arith, length-append (fill []) (x ∷ extra)))
open_frame-encode _ fill (x ∷ extra) a h =
    rw a (ground (arith, length-append (fill []) (x ∷ extra)))
