-- ===== src/Binary/Bodies.antt =====
-- opcua/transport/binary/codec_utils.cpp: the body of a message (the NodeId of its type, then its
-- bytes) and an extension object whose body is kept encoded.
use opcuapp.Base.{
  ℕ, ◌^◌, ◌<◌, ◌≡◌, Option, none, some, List, [], ◌++◌, ◌>>=◌, ◌>>◌, guard, arith, length, take,
  drop, ltb, ◌==◌, if◌then◌else◌,
}
use opcuapp.Base.Int.{ℤ, pos, negsuc}
use opcuapp.Types.NodeId.{Identifier, numeric}
use opcuapp.Binary.Codec.{decode_uint8, decode_int32}
use opcuapp.Binary.Identifiers.{encode_node_id, decode_node_id, make_node_id}
use opcuapp.Binary.Identifiers.RoundTrip.{decode-encode_node_id}

pub record DecodedExtensionObject : Type 0 where
  pub type_id : ℕ
  pub encoding : ℕ
  pub body : List ℕ

abbrev pub numeric_id : Identifier → Option ℕ
numeric_id (numeric n) = some n
numeric_id _ = none

-- A negative length fails here.
unfoldable pub take_body : ℤ → List ℕ → Option (List ℕ × List ℕ)
take_body (negsuc n) rest = none
take_body (pos n) rest = if ltb (length rest) n then none else some (take n rest, drop n rest)

unfoldable pub decode_extension_object : List ℕ → Option (DecodedExtensionObject × List ℕ)
unfolding decode_node_id decode_uint8 decode_int32 take_body
decode_extension_object bytes = do
  (node_id, bytes) ← decode_node_id bytes
  type_id ← numeric_id node_id.identifier
  (encoding, bytes) ← decode_uint8 bytes
  if encoding == 0x00
      then some (record { type_id = type_id; encoding = encoding; body = [] }, bytes)
      else do
        (size, bytes) ← decode_int32 bytes
        (body, bytes) ← take_body size bytes
        some (record { type_id = type_id; encoding = encoding; body = body }, bytes)

unfoldable pub append_message : List ℕ → ℕ → List ℕ → List ℕ
unfolding encode_node_id
append_message bytes type_id payload =
    encode_node_id bytes (make_node_id (numeric type_id) 0) ++ payload

-- The payload is all that remains, and `Skip` of it succeeds.
unfoldable pub read_message : List ℕ → Option (ℕ × List ℕ)
unfolding decode_node_id
read_message bytes = do
  (type_id, payload) ← decode_node_id bytes
  n ← numeric_id type_id.identifier
  guard (type_id.namespace_index == 0)
  some (n, payload)

-- The type and the payload of a message are read back as they were written.
pub read_message-append_message :
    (type_id : ℕ) (payload : List ℕ)
    → type_id < 2 ^ 32
    → read_message (append_message [] type_id payload) ≡ some (type_id, payload)
unfolding read_message append_message
read_message-append_message type_id payload h = rw (
    decode-encode_node_id (make_node_id (numeric type_id) 0) payload
      (record { identifier = h; namespace_index = omega arith }))
