-- ===== src/Binary/Identifiers/RoundTrip.antt =====
-- A NodeId is read back as it was written, in whichever of the six forms the encoder chose, and so is
-- an ExpandedNodeId.
use opcuapp.Base.{
  ℕ, ◌^◌, ◌<◌, ◌≡◌, some, List, [], ◌++◌, arith, length, take-length-append, drop-length-append,
  take, drop, length-append,
}
use opcuapp.Types.NodeId.{NodeId, Guid, Identifier, numeric, string, guid, opaque}
use opcuapp.Binary.Codec.RoundTrip.{decode-encode_string}
use opcuapp.Binary.Identifiers.{encode_guid, decode_guid, encode_node_id, decode_node_id}

pub record IsWireGuid (g : Guid) : Type 0 where
  pub data1 : g.data1 < 2 ^ 32
  pub data2 : g.data2 < 2 ^ 16
  pub data3 : g.data3 < 2 ^ 16
  pub data4 : length g.data4 ≡ 8

-- An identifier that its length or its 32 bits can carry.
abbrev pub IsWireIdentifier : Identifier → Type 0
IsWireIdentifier (numeric n) = n < 2 ^ 32
IsWireIdentifier (string text) = length text < 2 ^ 31
IsWireIdentifier (guid g) = IsWireGuid g
IsWireIdentifier (opaque id) = length id < 2 ^ 31

pub record IsWireNodeId (n : NodeId) : Type 0 where
  pub identifier : IsWireIdentifier n.identifier
  pub namespace_index : n.namespace_index < 2 ^ 16

pub decode-encode_guid :
    (g : Guid) (rest : List ℕ)
    → IsWireGuid g
    → decode_guid (encode_guid [] g ++ rest) ≡ some (g, rest)
unfolding decode_guid encode_guid
decode-encode_guid g rest w =
    let front : take 8 (g.data4 ++ rest) ≡ g.data4 =
      rw (← w.data4) (take-length-append g.data4 rest) in
    let back : drop 8 (g.data4 ++ rest) ≡ rest = rw (← w.data4) (drop-length-append g.data4 rest) in
    ground (arith, front, back, length-append g.data4 rest, w.data1, w.data2, w.data3, w.data4)

-- A NodeId with an identifier and a namespace that fit the wire is read back as it was written, and
-- what follows it is left.
pub decode-encode_node_id :
    (n : NodeId) (rest : List ℕ)
    → IsWireNodeId n
    → decode_node_id (encode_node_id [] n ++ rest) ≡ some (n, rest)
unfolding decode_node_id encode_node_id
decode-encode_node_id n rest w =
    elim n.identifier
        as (λ i.
          IsWireIdentifier i
          → decode_node_id (encode_node_id [] (record n { identifier = i }) ++ rest)
            ≡ some (record n { identifier = i }, rest)) [
              | numeric m ↦ λ h. ground (arith, h, w.namespace_index)
              | string text ↦
                  λ h. ground (arith, h, w.namespace_index, decode-encode_string text rest h)
              | guid g ↦ λ h. ground (arith, h, w.namespace_index, decode-encode_guid g rest h)
              | opaque id ↦
                  λ h. ground (arith, h, w.namespace_index, decode-encode_string id rest h)
            ]
      w.identifier
