-- ===== src/Types/NodeId.antt =====
-- opcua/types/node_id.h: an identifier of one of four kinds, and a namespace index. A string and an
-- opaque identifier are their bytes; a Guid has the four fields of opcua/types/guid.h.
use opcuapp.Base.{ℕ, ◌≡◌, Bool, false, List, [], ◌∷◌, ◌==◌, ◌&&◌, true, ◌↔◌, arith, refl, ap}

pub record Guid : Type 0 where
  pub data1 : ℕ
  pub data2 : ℕ
  pub data3 : ℕ
  pub data4 : List ℕ

pub data Identifier : Type 0 where
  numeric : ℕ → Identifier
  string : List ℕ → Identifier
  guid : Guid → Identifier
  opaque : List ℕ → Identifier

pub record NodeId : Type 0 where
  pub identifier : Identifier
  pub namespace_index : ℕ

-- The default NodeId.
abbrev pub null : NodeId
null = record { identifier = numeric 0; namespace_index = 0 }

unfoldable pub same_bytes : List ℕ → List ℕ → Bool
same_bytes [] [] = true
same_bytes (x ∷ xs) (y ∷ ys) = x == y && same_bytes xs ys
same_bytes _ _ = false

-- `Guid::operator==`, member by member.
unfoldable pub same_guid : Guid → Guid → Bool
unfolding same_bytes
same_guid a b =
    a.data1 == b.data1 && (a.data2 == b.data2 && (a.data3 == b.data3 && same_bytes a.data4 b.data4))

unfoldable pub same_identifier : Identifier → Identifier → Bool
unfolding same_bytes same_guid
same_identifier (numeric a) (numeric b) = a == b
same_identifier (string a) (string b) = same_bytes a b
same_identifier (guid a) (guid b) = same_guid a b
same_identifier (opaque a) (opaque b) = same_bytes a b
same_identifier _ _ = false

-- `operator==`
unfoldable pub same_node : NodeId → NodeId → Bool
unfolding same_identifier
same_node a b = same_identifier a.identifier b.identifier && a.namespace_index == b.namespace_index

pub same_bytes_eq : (xs ys : List ℕ) → same_bytes xs ys ≡ true → xs ≡ ys
unfolding same_bytes
same_bytes_eq [] [] h = refl
same_bytes_eq [] (y ∷ ys) h = cc
same_bytes_eq (x ∷ xs) [] h = cc
same_bytes_eq (x ∷ xs) (y ∷ ys) h = ground (arith, same_bytes_eq xs ys)

pub same_bytes_refl : (xs : List ℕ) → same_bytes xs xs ≡ true
unfolding same_bytes
same_bytes_refl [] = refl
same_bytes_refl (x ∷ xs) = ground (arith, same_bytes_refl xs)

same_guid_eq : (a b : Guid) → same_guid a b ≡ true → a ≡ b
unfolding same_guid
same_guid_eq a b h = ground (arith, same_bytes_eq a.data4 b.data4)

same_guid_refl : (a : Guid) → same_guid a a ≡ true
unfolding same_guid
same_guid_refl a = ground (arith, same_bytes_refl a.data4)

same_identifier_eq : (a b : Identifier) → same_identifier a b ≡ true → a ≡ b
unfolding same_identifier
same_identifier_eq (numeric a) (numeric b) h = ground arith
same_identifier_eq (string a) (string b) h = ap string (same_bytes_eq a b h)
same_identifier_eq (guid a) (guid b) h = ap guid (same_guid_eq a b h)
same_identifier_eq (opaque a) (opaque b) h = ap opaque (same_bytes_eq a b h)
same_identifier_eq _ _ h = cc

same_identifier_refl : (a : Identifier) → same_identifier a a ≡ true
unfolding same_identifier
same_identifier_refl (numeric a) = ground arith
same_identifier_refl (string a) = same_bytes_refl a
same_identifier_refl (guid a) = same_guid_refl a
same_identifier_refl (opaque a) = same_bytes_refl a

-- The comparison of two NodeIds decides their equality.
pub same_node_iff : (a b : NodeId) → (same_node a b ≡ true) ↔ (a ≡ b)
unfolding same_node
same_node_iff a b = (
  λ h. ground (arith, same_identifier_eq a.identifier b.identifier),
  λ e. rw e (ground (arith, same_identifier_refl b.identifier)),
)

pub same_bytes_iff : (xs ys : List ℕ) → (same_bytes xs ys ≡ true) ↔ (xs ≡ ys)
same_bytes_iff xs ys = (same_bytes_eq xs ys, λ e. rw e (same_bytes_refl ys))
