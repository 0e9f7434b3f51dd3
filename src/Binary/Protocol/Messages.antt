-- ===== src/Binary/Protocol/Messages.antt =====
-- The Hello, Acknowledge and Error messages: each is read back as it was written.
use mathlib.Core.List.{append_assoc}
use opcuapp.Base.{
  ℕ, ◌+◌, ◌^◌, ◌<◌, ◌≡◌, refl, none, some, List, [], ◌∷◌, ◌++◌, arith, length, is_empty,
  if◌then◌else◌,
}
use opcuapp.Binary.Codec.{encode_uint32, encode_string}
use opcuapp.Binary.Codec.RoundTrip.{word_bytes, take_string_whole}
use opcuapp.Binary.Protocol.{
  hello, acknowledge, error, HelloMessage, AcknowledgeMessage, ErrorMessage, fill_hello,
  encode_hello_message, decode_hello_message, fill_acknowledge, encode_acknowledge_message,
  decode_acknowledge_message, fill_error, encode_error_message, decode_error_message,
}
use opcuapp.Binary.Protocol.Frames.{Appends, open_frame-encode}

-- The fields are 32-bit numbers, and the string's size is a positive std::int32_t.
pub record IsWireHello (m : HelloMessage) : Type 0 where
  pub protocol_version : m.protocol_version < 2 ^ 32
  pub receive_buffer_size : m.receive_buffer_size < 2 ^ 32
  pub send_buffer_size : m.send_buffer_size < 2 ^ 32
  pub max_message_size : m.max_message_size < 2 ^ 32
  pub max_chunk_count : m.max_chunk_count < 2 ^ 32
  pub endpoint_url : length m.endpoint_url < 2 ^ 31

fill_hello-Appends : (m : HelloMessage) → Appends (fill_hello m)
unfolding fill_hello encode_uint32 encode_string
fill_hello-Appends m bytes = simp append_assoc

length-fill_hello : (m : HelloMessage) → length (fill_hello m []) ≡ length m.endpoint_url + 24
unfolding fill_hello encode_uint32 encode_string
length-fill_hello m = omega arith

-- A Hello message with fields that fit the wire is read back as it was written,
-- and with anything behind it it is refused.
pub decode-encode_hello_message :
    (m : HelloMessage) (extra : List ℕ)
    → IsWireHello m
    → decode_hello_message (encode_hello_message m ++ extra)
      ≡ (if is_empty extra then some m else none)
unfolding decode_hello_message encode_hello_message
decode-encode_hello_message m (x ∷ extra) w =
    rw
      (open_frame-encode hello (fill_hello m) (x ∷ extra) (fill_hello-Appends m)
        (omega (arith, length-fill_hello m, w.endpoint_url)))
      refl
decode-encode_hello_message m [] w =
    rw
      (open_frame-encode hello (fill_hello m) [] (fill_hello-Appends m)
        (omega (arith, length-fill_hello m, w.endpoint_url)))
      (rw (take_string_whole m.endpoint_url w.endpoint_url) (
        simp (
          word_bytes _ w.protocol_version,
          word_bytes _ w.receive_buffer_size,
          word_bytes _ w.send_buffer_size,
          word_bytes _ w.max_message_size,
          word_bytes _ w.max_chunk_count,
        )))

pub record IsWireAcknowledge (m : AcknowledgeMessage) : Type 0 where
  pub protocol_version : m.protocol_version < 2 ^ 32
  pub receive_buffer_size : m.receive_buffer_size < 2 ^ 32
  pub send_buffer_size : m.send_buffer_size < 2 ^ 32
  pub max_message_size : m.max_message_size < 2 ^ 32
  pub max_chunk_count : m.max_chunk_count < 2 ^ 32

fill_acknowledge-Appends : (m : AcknowledgeMessage) → Appends (fill_acknowledge m)
unfolding fill_acknowledge encode_uint32
fill_acknowledge-Appends m bytes = simp append_assoc

length-fill_acknowledge : (m : AcknowledgeMessage) → length (fill_acknowledge m []) ≡ 20
unfolding fill_acknowledge encode_uint32
length-fill_acknowledge m = omega arith

-- An Acknowledge message with fields that fit the wire is read back as it was written,
-- and with anything behind it it is refused.
pub decode-encode_acknowledge_message :
    (m : AcknowledgeMessage) (extra : List ℕ)
    → IsWireAcknowledge m
    → decode_acknowledge_message (encode_acknowledge_message m ++ extra)
      ≡ (if is_empty extra then some m else none)
unfolding decode_acknowledge_message encode_acknowledge_message
decode-encode_acknowledge_message m (x ∷ extra) w =
    rw
      (open_frame-encode acknowledge (fill_acknowledge m) (x ∷ extra) (fill_acknowledge-Appends m)
        (omega (arith, length-fill_acknowledge m)))
      refl
decode-encode_acknowledge_message m [] w = simp (
  word_bytes _ w.protocol_version,
  word_bytes _ w.receive_buffer_size,
  word_bytes _ w.send_buffer_size,
  word_bytes _ w.max_message_size,
  word_bytes _ w.max_chunk_count,
)

pub record IsWireError (m : ErrorMessage) : Type 0 where
  pub full_code : m.full_code < 2 ^ 32
  pub reason : length m.reason < 2 ^ 31

fill_error-Appends : (m : ErrorMessage) → Appends (fill_error m)
unfolding fill_error encode_uint32 encode_string
fill_error-Appends m bytes = simp append_assoc

length-fill_error : (m : ErrorMessage) → length (fill_error m []) ≡ length m.reason + 8
unfolding fill_error encode_uint32 encode_string
length-fill_error m = omega arith

-- An Error message with fields that fit the wire is read back as it was written,
-- and with anything behind it it is refused.
pub decode-encode_error_message :
    (m : ErrorMessage) (extra : List ℕ)
    → IsWireError m
    → decode_error_message (encode_error_message m ++ extra)
      ≡ (if is_empty extra then some m else none)
unfolding decode_error_message encode_error_message
decode-encode_error_message m (x ∷ extra) w =
    rw
      (open_frame-encode error (fill_error m) (x ∷ extra) (fill_error-Appends m)
        (omega (arith, length-fill_error m, w.reason)))
      refl
decode-encode_error_message m [] w =
    rw
      (open_frame-encode error (fill_error m) [] (fill_error-Appends m)
        (omega (arith, length-fill_error m, w.reason)))
      (rw (take_string_whole m.reason w.reason) (simp (word_bytes _ w.full_code)))
