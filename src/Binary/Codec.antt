-- ===== src/Binary/Codec.antt =====
-- opcua/transport/binary/codec_utils.cpp: the Encoder and Decoder of the fixed-width integers, of
-- strings and of byte strings. A byte is a number below 256. An encoder is the bytes written so far;
-- a decoder is the span that `remaining()` returns, so `offset_ + n > bytes_.size()` says that fewer
-- than n bytes remain. A decoder that fails returns `none`: its callers give up at once.
pub mod RoundTrip
use opcuapp.Base.{
  ℕ, zero, suc, ◌+◌, ◌*◌, ◌/◌, ◌%◌, ◌^◌, ◌<◌, Bool, Option, none, some, List, [], ◌∷◌, ◌++◌, ◌>>=◌,
  length, take, drop, is_empty, ltb, if◌then◌else◌, not, ◌==◌,
}
use opcuapp.Base.Int.{ℤ, pos, negsuc, to_int32}

unfoldable pub encode_uint8 : List ℕ → ℕ → List ℕ
encode_uint8 bytes value = bytes ++ value % 256 ∷ []

unfoldable pub encode_uint16 : List ℕ → ℕ → List ℕ
encode_uint16 bytes value = bytes ++ value % 256 ∷ value / 2 ^ 8 % 256 ∷ []

unfoldable pub encode_uint32 : List ℕ → ℕ → List ℕ
encode_uint32 bytes value =
    bytes ++ value % 256 ∷ value / 2 ^ 8 % 256 ∷ value / 2 ^ 16 % 256 ∷ value / 2 ^ 24 % 256 ∷ []

-- The loop over i: the byte at `8 * i`, for the `n` values of i that are left.
unfoldable pub uint64_loop : ℕ → ℕ → ℕ → List ℕ
uint64_loop zero i value = []
uint64_loop (suc n) i value = value / 2 ^ (8 * i) % 256 ∷ uint64_loop n (suc i) value

unfoldable pub encode_uint64 : List ℕ → ℕ → List ℕ
unfolding uint64_loop
encode_uint64 bytes value = bytes ++ uint64_loop 8 0 value

unfoldable pub encode_bool : List ℕ → Bool → List ℕ
unfolding encode_uint8
encode_bool bytes value = encode_uint8 bytes (if value then 1 else 0)

-- The size is cast to std::int32_t and then to std::uint32_t.
unfoldable pub encode_string : List ℕ → List ℕ → List ℕ
unfolding encode_uint32
encode_string bytes value = encode_uint32 bytes (length value % 2 ^ 32) ++ value

unfoldable pub decode_uint8 : List ℕ → Option (ℕ × List ℕ)
decode_uint8 [] = none
decode_uint8 (b ∷ rest) = some (b, rest)

unfoldable pub decode_uint16 : List ℕ → Option (ℕ × List ℕ)
decode_uint16 (b0 ∷ b1 ∷ rest) = some (b0 + b1 * 2 ^ 8, rest)
decode_uint16 _ = none

-- The shifted bytes have no bit in common, so their `|` is their sum.
unfoldable pub decode_uint32 : List ℕ → Option (ℕ × List ℕ)
decode_uint32 (b0 ∷ b1 ∷ b2 ∷ b3 ∷ rest) = some (b0 + b1 * 2 ^ 8 + b2 * 2 ^ 16 + b3 * 2 ^ 24, rest)
decode_uint32 _ = none

unfoldable pub decode_uint64 : List ℕ → Option (ℕ × List ℕ)
decode_uint64 (b0 ∷ b1 ∷ b2 ∷ b3 ∷ b4 ∷ b5 ∷ b6 ∷ b7 ∷ rest) = some (
  b0
      + b1 * 2 ^ 8
      + b2 * 2 ^ 16
      + b3 * 2 ^ 24
      + b4 * 2 ^ 32
      + b5 * 2 ^ 40
      + b6 * 2 ^ 48
      + b7 * 2 ^ 56,
  rest,
)
decode_uint64 _ = none

unfoldable pub decode_bool : List ℕ → Option (Bool × List ℕ)
unfolding decode_uint8
decode_bool bytes = do (raw, rest) ← decode_uint8 bytes; some (not (raw == 0), rest)

unfoldable pub decode_int32 : List ℕ → Option (ℤ × List ℕ)
unfolding decode_uint32
decode_int32 bytes = do (raw, rest) ← decode_uint32 bytes; some (to_int32 raw, rest)

-- A string of negative length is the empty one; a length past the end fails.
unfoldable pub take_string : ℤ → List ℕ → Option (List ℕ × List ℕ)
take_string (negsuc n) rest = some ([], rest)
take_string (pos n) rest = if ltb (length rest) n then none else some (take n rest, drop n rest)

unfoldable pub decode_string : List ℕ → Option (List ℕ × List ℕ)
unfolding decode_int32 take_string
decode_string bytes = do (size, rest) ← decode_int32 bytes; take_string size rest

-- `consumed()`
abbrev pub consumed : List ℕ → Bool
consumed bytes = is_empty bytes
