-- ===== src/Types/Duration.antt =====
-- opcua/types/duration.h, duration.cpp and opcua/base/time_base.h. A Duration is a double of
-- milliseconds, by its bit pattern. A DateTime is its ticks of 100 nanoseconds, which are not
-- negative: a sum that C++ would put before the origin stops at it.
use opcuapp.Base.{ℕ, ◌+◌, ◌-◌, ◌^◌, Bool, if◌then◌else◌, min, not, ◌&&◌}
use opcuapp.Base.Int.{ℤ, pos, negsuc}
use opcuapp.Types.Variant.{Doubles}

module _ (d : Doubles) where
  abbrev pub of_nat : ℕ → ℕ
  of_nat n = d.of_int64 (pos n)

  -- `SaturatingTrunc<int64_t>`; only a value that is not a number is not `<=` itself.
  unfoldable pub saturating_trunc : ℕ → ℤ
  saturating_trunc value =
      if not (d.le value value)
      then pos 0
      else if d.le (d.of_int64 (pos (2 ^ 63 - 1))) value
      then pos (2 ^ 63 - 1)
      else if d.le value (d.of_int64 (negsuc (2 ^ 63 - 1)))
      then negsuc (2 ^ 63 - 1)
      else d.to_int64 value

  unfoldable pub is_zero : ℕ → Bool
  is_zero duration = d.le duration (of_nat 0) && d.le (of_nat 0) duration

  -- `DateTime - DateTime`
  unfoldable pub elapsed : ℕ → ℕ → ℕ
  elapsed time other = d.div (d.div (d.sub (of_nat time) (of_nat other)) (of_nat 10)) (of_nat 1000)

  -- `SaturatedAdd`
  unfoldable pub saturated_add : ℤ → ℕ → ℕ
  saturated_add (pos a) value = min (a + value) (2 ^ 63 - 1)
  saturated_add (negsuc a) value = value - (a + 1)

  -- `DateTime + Duration`
  unfoldable pub add_duration : ℕ → ℕ → ℕ
  unfolding saturating_trunc saturated_add
  add_duration time delta =
      saturated_add (saturating_trunc (d.mul (d.mul delta (of_nat 10)) (of_nat 1000))) time

  -- `std::min` and `std::max` of two durations.
  unfoldable pub min_duration : ℕ → ℕ → ℕ
  min_duration a b = if d.lt b a then b else a

  unfoldable pub max_duration : ℕ → ℕ → ℕ
  max_duration a b = if d.lt a b then b else a

  -- `std::clamp`, which leaves a value that is not a number as it is.
  unfoldable pub clamp : ℕ → ℕ → ℕ → ℕ
  clamp value low high = if d.lt value low then low else if d.lt high value then high else value
