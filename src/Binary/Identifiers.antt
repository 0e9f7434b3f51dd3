-- ===== src/Binary/Identifiers.antt =====
-- opcua/transport/binary/codec_utils.cpp: the encodings of Guid, NodeId and ExpandedNodeId (OPC UA
-- Part 6, 5.2.2.9). The masks `& 0x3f`, `& 0x40` and `& 0x80` of a byte are written with `%` and `/`.
pub mod RoundTrip
use opcuapp.Base.{
  ℕ, ◌+◌, ◌/◌, ◌%◌, Bool, true, false, Option, none, some, List, [], ◌++◌, ◌>>=◌, ◌>>◌, guard, leb,
  ltb, take, drop, length, is_empty, not, ◌==◌, ◌&&◌, if◌then◌else◌,
}
use opcuapp.Types.NodeId.{NodeId, Guid, Identifier, numeric, string, guid, opaque}
use opcuapp.Binary.Codec.{
  encode_uint8, encode_uint16, encode_uint32, encode_string, decode_uint8, decode_uint16,
  decode_uint32, decode_string,
}

pub record ExpandedNodeId : Type 0 where
  pub node_id : NodeId
  pub namespace_uri : List ℕ
  pub server_index : ℕ

unfoldable pub encode_guid : List ℕ → Guid → List ℕ
unfolding encode_uint16 encode_uint32
encode_guid bytes value =
    let bytes = encode_uint32 bytes value.data1 in
    let bytes = encode_uint16 bytes value.data2 in
    let bytes = encode_uint16 bytes value.data3 in bytes ++ value.data4

unfoldable pub decode_guid : List ℕ → Option (Guid × List ℕ)
unfolding decode_uint16 decode_uint32
decode_guid bytes = do
  (data1, bytes) ← decode_uint32 bytes
  (data2, bytes) ← decode_uint16 bytes
  (data3, bytes) ← decode_uint16 bytes
  guard (not (ltb (length bytes) 8))
  some (record { data1 = data1; data2 = data2; data3 = data3; data4 = take 8 bytes }, drop 8 bytes)

unfoldable pub encode_node_id : List ℕ → NodeId → List ℕ
unfolding encode_uint8 encode_uint16 encode_uint32 encode_string encode_guid
encode_node_id bytes node_id =
    let index = node_id.namespace_index in
    elim node_id.identifier [
      | numeric n ↦
          if index == 0 && leb n 0xff
          then encode_uint8 (encode_uint8 bytes 0x00) n
          else if leb index 0xff && leb n 0xffff
          then encode_uint16 (encode_uint8 (encode_uint8 bytes 0x01) index) n
          else encode_uint32 (encode_uint16 (encode_uint8 bytes 0x02) index) n
      | string text ↦ encode_string (encode_uint16 (encode_uint8 bytes 0x03) index) text
      | guid g ↦ encode_guid (encode_uint16 (encode_uint8 bytes 0x04) index) g
      | opaque id ↦ encode_string (encode_uint16 (encode_uint8 bytes 0x05) index) id
    ]

-- `NodeId{id, ns}`
abbrev pub make_node_id : Identifier → ℕ → NodeId
make_node_id identifier index = record { identifier = identifier; namespace_index = index }

-- The body of a NodeId after its encoding byte, in the forms that both decoders read.
unfoldable pub decode_two_byte : List ℕ → Option (NodeId × List ℕ)
unfolding decode_uint8
decode_two_byte bytes = do
  (short_id, bytes) ← decode_uint8 bytes
  some (make_node_id (numeric short_id) 0, bytes)

unfoldable pub decode_four_byte : List ℕ → Option (NodeId × List ℕ)
unfolding decode_uint8 decode_uint16
decode_four_byte bytes = do
  (ns, bytes) ← decode_uint8 bytes
  (short_id, bytes) ← decode_uint16 bytes
  some (make_node_id (numeric short_id) ns, bytes)

unfoldable pub decode_numeric : List ℕ → Option (NodeId × List ℕ)
unfolding decode_uint16 decode_uint32
decode_numeric bytes = do
  (ns, bytes) ← decode_uint16 bytes
  (numeric_id, bytes) ← decode_uint32 bytes
  some (make_node_id (numeric numeric_id) ns, bytes)

unfoldable pub decode_string_id : List ℕ → Option (NodeId × List ℕ)
unfolding decode_uint16 decode_string
decode_string_id bytes = do
  (ns, bytes) ← decode_uint16 bytes
  (string_id, bytes) ← decode_string bytes
  some (make_node_id (string string_id) ns, bytes)

unfoldable pub decode_guid_id : List ℕ → Option (NodeId × List ℕ)
unfolding decode_uint16 decode_guid
decode_guid_id bytes = do
  (ns, bytes) ← decode_uint16 bytes
  (guid_id, bytes) ← decode_guid bytes
  some (make_node_id (guid guid_id) ns, bytes)

unfoldable pub decode_opaque_id : List ℕ → Option (NodeId × List ℕ)
unfolding decode_uint16 decode_string
decode_opaque_id bytes = do
  (ns, bytes) ← decode_uint16 bytes
  (opaque_id, bytes) ← decode_string bytes
  some (make_node_id (opaque opaque_id) ns, bytes)

unfoldable pub decode_node_id : List ℕ → Option (NodeId × List ℕ)
unfolding decode_uint8 decode_two_byte decode_four_byte decode_numeric decode_string_id
    decode_guid_id decode_opaque_id
decode_node_id bytes = do
  (encoding, bytes) ← decode_uint8 bytes
  if encoding == 0x00
      then decode_two_byte bytes
      else if encoding == 0x01
      then decode_four_byte bytes
      else if encoding == 0x02
      then decode_numeric bytes
      else if encoding == 0x03
      then decode_string_id bytes
      else if encoding == 0x04
      then decode_guid_id bytes
      else if encoding == 0x05
      then decode_opaque_id bytes
      else none

-- The low six bits of the encoding byte. A Guid takes the opaque form.
unfoldable pub expanded_form : NodeId → ℕ
expanded_form node_id = elim node_id.identifier [
  | numeric n ↦
      if node_id.namespace_index == 0 && leb n 0xff
      then 0x00
      else if leb node_id.namespace_index 0xff && leb n 0xffff
      then 0x01
      else 0x02
  | string _ ↦ 0x03
  | _ ↦ 0x05
]

-- `opaque_id()` of a Guid throws std::bad_variant_access: `none`.
unfoldable pub encode_expanded_body : List ℕ → NodeId → Option (List ℕ)
unfolding expanded_form encode_uint8 encode_uint16 encode_uint32 encode_string
encode_expanded_body bytes node_id =
    let index = node_id.namespace_index in
    elim node_id.identifier [
      | numeric n ↦
          if expanded_form node_id == 0x00
          then some (encode_uint8 bytes n)
          else if expanded_form node_id == 0x01
          then some (encode_uint16 (encode_uint8 bytes index) n)
          else some (encode_uint32 (encode_uint16 bytes index) n)
      | string text ↦ some (encode_string (encode_uint16 bytes index) text)
      | guid _ ↦ none
      | opaque id ↦ some (encode_string (encode_uint16 bytes index) id)
    ]

unfoldable pub encode_expanded_node_id : List ℕ → ExpandedNodeId → Option (List ℕ)
unfolding expanded_form encode_expanded_body encode_uint8 encode_uint32 encode_string
encode_expanded_node_id bytes id = do
  let encoding =
      expanded_form id.node_id
      + (if is_empty id.namespace_uri then 0 else 0x80)
      + (if id.server_index == 0 then 0 else 0x40)
  bytes ← encode_expanded_body (encode_uint8 bytes encoding) id.node_id
  let bytes = if is_empty id.namespace_uri then bytes else encode_string bytes id.namespace_uri
  some (if id.server_index == 0 then bytes else encode_uint32 bytes id.server_index)

unfoldable pub decode_expanded_body : ℕ → List ℕ → Option (NodeId × List ℕ)
unfolding decode_two_byte decode_four_byte decode_numeric decode_string_id decode_opaque_id
decode_expanded_body form bytes =
    if form == 0x00
    then decode_two_byte bytes
    else if form == 0x01
    then decode_four_byte bytes
    else if form == 0x02
    then decode_numeric bytes
    else if form == 0x03
    then decode_string_id bytes
    else if form == 0x05
    then decode_opaque_id bytes
    else none

unfoldable pub decode_expanded_node_id : List ℕ → Option (ExpandedNodeId × List ℕ)
unfolding decode_uint8 decode_uint32 decode_string decode_expanded_body
decode_expanded_node_id bytes = do
  (encoding, bytes) ← decode_uint8 bytes
  (node_id, bytes) ← decode_expanded_body (encoding % 64) bytes
  (namespace_uri, bytes) ← if encoding / 128 % 2 == 0 then some ([], bytes) else decode_string bytes
  (server_index, bytes) ← if encoding / 64 % 2 == 0 then some (0, bytes) else decode_uint32 bytes
  some (
    record { node_id = node_id; namespace_uri = namespace_uri; server_index = server_index },
    bytes,
  )
