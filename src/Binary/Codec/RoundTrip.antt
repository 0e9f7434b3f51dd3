-- ===== src/Binary/Codec/RoundTrip.antt =====
-- Each decoder reads back what its encoder wrote, and leaves what follows it.
use mathlib.Core.List.{append-nil}
use opcuapp.Base.{
  ℕ, ◌+◌, ◌*◌, ◌/◌, ◌%◌, ◌^◌, ◌<◌, ◌≡◌, some, List, [], ◌++◌, arith, length, take-length-append,
  drop-length-append, length-append,
}
use opcuapp.Binary.Codec.{
  encode_uint16, encode_uint32, encode_uint64, encode_string, decode_uint16, decode_uint32,
  decode_uint64, decode_string, take_string,
}
use opcuapp.Base.Int.{to_int32}

pub decode-encode_uint16 :
    (v : ℕ) (rest : List ℕ)
    → v < 2 ^ 16
    → decode_uint16 (encode_uint16 [] v ++ rest) ≡ some (v, rest)
unfolding decode_uint16 encode_uint16
decode-encode_uint16 v rest h = ground arith

pub decode-encode_uint32 :
    (v : ℕ) (rest : List ℕ)
    → v < 2 ^ 32
    → decode_uint32 (encode_uint32 [] v ++ rest) ≡ some (v, rest)
unfolding decode_uint32 encode_uint32
decode-encode_uint32 v rest h = ground arith

pub decode-encode_uint64 :
    (v : ℕ) (rest : List ℕ)
    → v < 2 ^ 64
    → decode_uint64 (encode_uint64 [] v ++ rest) ≡ some (v, rest)
unfolding decode_uint64 encode_uint64
decode-encode_uint64 v rest h = ground arith

pub decode-encode_string :
    (s rest : List ℕ)
    → length s < 2 ^ 31
    → decode_string (encode_string [] s ++ rest) ≡ some (s, rest)
unfolding decode_string encode_string
decode-encode_string s rest h =
    ground (arith, take-length-append s rest, drop-length-append s rest, length-append s rest)

-- The bytes of a 32-bit number add up to it.
pub word_bytes :
    (v : ℕ)
    → v < 2 ^ 32
    → v % 256 + v / 2 ^ 8 % 256 * 2 ^ 8 + v / 2 ^ 16 % 256 * 2 ^ 16 + v / 2 ^ 24 % 256 * 2 ^ 24 ≡ v
word_bytes v h = omega arith

-- What is taken of a string by its own size is all of it.
pub take_string_whole :
    (s : List ℕ)
    → length s < 2 ^ 31
    → take_string
        (to_int32 (
          length s % 2 ^ 32 % 256
          + length s % 2 ^ 32 / 2 ^ 8 % 256 * 2 ^ 8
          + length s % 2 ^ 32 / 2 ^ 16 % 256 * 2 ^ 16
          + length s % 2 ^ 32 / 2 ^ 24 % 256 * 2 ^ 24))
        s
      ≡ some (s, [])
unfolding take_string
take_string_whole s h =
    ground (
      arith,
      rw append-nil at (take-length-append s []),
      rw append-nil at (drop-length-append s []),
    )
