-- ===== src/Types/Variant.antt =====
-- opcua/types/variant.h, variant.cpp and data_value.h. A double and a float are their bit patterns;
-- what the processor does with them is a parameter, `Doubles`. Of the alternatives of a Variant those
-- that `get` reads as a number have a constructor each; `other` stands for the rest, the strings, ids
-- and arrays, by the alternative's index and its content.
use opcuapp.Base.{ℕ, Bool, Option, none, some, List, ◌>>=◌, if◌then◌else◌}
use opcuapp.Base.Int.{ℤ, pos, to_int64 as word_to_int64}

pub record Doubles : Type 0 where
  pub to_int64 : ℕ → ℤ
  pub of_int64 : ℤ → ℕ
  pub sub : ℕ → ℕ → ℕ
  pub mul : ℕ → ℕ → ℕ
  pub div : ℕ → ℕ → ℕ
  pub abs : ℕ → ℕ
  pub le : ℕ → ℕ → Bool
  pub lt : ℕ → ℕ → Bool

pub data Variant : Type 0 where
  empty : Variant
  boolean : Bool → Variant
  int8 : ℤ → Variant
  uint8 : ℕ → Variant
  int16 : ℤ → Variant
  uint16 : ℕ → Variant
  int32 : ℤ → Variant
  uint32 : ℕ → Variant
  int64 : ℤ → Variant
  uint64 : ℕ → Variant
  float : ℕ → Variant
  double : ℕ → Variant
  other : ℕ → List ℕ → Variant

unfoldable pub get_int64 : Doubles → Variant → Option ℤ
get_int64 d (boolean b) = some (pos (if b then 1 else 0))
get_int64 d (int8 v) = some v
get_int64 d (uint8 v) = some (pos v)
get_int64 d (int16 v) = some v
get_int64 d (uint16 v) = some (pos v)
get_int64 d (int32 v) = some v
get_int64 d (uint32 v) = some (pos v)
get_int64 d (int64 v) = some v
get_int64 d (uint64 v) = some (word_to_int64 v)
get_int64 d (double v) = some (d.to_int64 v)
get_int64 d _ = none

-- `get(Double&)`: 1.0 or 0.0, the double itself, or an integer converted.
unfoldable pub get_double : Doubles → Variant → Option ℕ
unfolding get_int64
get_double d (boolean b) = some (if b then 0x3ff0_0000_0000_0000 else 0)
get_double d (double v) = some v
get_double d value = do int64_value ← get_int64 d value; some (d.of_int64 int64_value)

pub record DataValue : Type 0 where
  pub value : Variant
  pub qualifier : ℕ
  pub source_timestamp : ℕ
  pub server_timestamp : ℕ
  pub status_code : ℕ

-- `DataValue(StatusCode, DateTime)`
abbrev pub of_status : ℕ → ℕ → DataValue
of_status status_code server_timestamp = record {
  value = empty;
  qualifier = 0;
  source_timestamp = 0;
  server_timestamp = server_timestamp;
  status_code = status_code;
}
