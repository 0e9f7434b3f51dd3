-- ===== src/Session/RoundRobin.antt =====
-- Which subscription a publish serves: the first ready one from the cursor on, with those that have
-- notifications first.
use opcuapp.Base.{
  ℕ, zero, suc, ◌+◌, ◌-◌, ◌%◌, ◌≤◌, ◌<◌, ◌≡◌, ◌⊎◌, inl, inr, refl, ap, ◌∙◌, Bool, true, false,
  Option, none, some, arith, length, Bool-cases, leb,
}
use mathlib.Core.Path.{subst}
use native.Mathlib.Nat.{zero-add, mod-eq_of_lt, add-mod_right}
use opcuapp.Types.Variant.{Doubles}
use opcuapp.Session.State.{ServerSession}
use opcuapp.Session.Publish.{at_offset, is_ready_at, find_ready_loop, find_next_ready_subscription}

Nat-split : (a b : ℕ) → a ≤ b → (a ≡ b) ⊎ (suc a ≤ b)
Nat-split a b h = omega arith

shift : (a b : ℕ) → a + suc b ≡ suc a + b
shift a b = omega arith

add_sub : (a b : ℕ) → a ≤ b → a + (b - a) ≡ b
add_sub a b h = omega arith

-- Every position of the order is met within one round, from whatever valid cursor.
pub round_trip :
    (cursor index size : ℕ)
    → cursor < size
    → index < size
    → (o : ℕ) × (o < size) × ((cursor + o) % size ≡ index)
round_trip cursor index size h k = elim (Bool-cases (leb cursor index)) [
  | inl e ↦ (
    index - cursor,
    ground arith,
    ap (◌% size) (add_sub cursor index (ground arith)) ∙ mod-eq_of_lt k,
  )
  | inr e ↦ (
    index + size - cursor,
    ground arith,
    ap (◌% size) (add_sub cursor (index + size) (ground arith))
        ∙ add-mod_right index size
        ∙ mod-eq_of_lt k,
  )
]

module _ {R : Type 0} (d : Doubles) (s : ServerSession R) (now : ℕ) (require_pending : Bool) where
  abbrev pub position : ℕ → ℕ
  position offset = at_offset s.next_publish_index offset (length s.publish_order)

  abbrev pub ready_at : ℕ → Bool
  ready_at offset = is_ready_at d s now require_pending (position offset)

  -- The result of a search through some offsets: the first position that is accepted, or that none is.
  abbrev pub IsFirst : ℕ → ℕ → Option ℕ → Type 0
  IsFirst from to none = (o : ℕ) → from ≤ o → o < to → ready_at o ≡ false
  IsFirst from to (some index) =
      (offset : ℕ) × (from ≤ offset)
      × (offset < to)
      × (index ≡ position offset)
      × (ready_at offset ≡ true)
      × ((o : ℕ) → from ≤ o → o < offset → ready_at o ≡ false)

  loop_step :
      (from to : ℕ) (r : Option ℕ)
      → ready_at from ≡ false
      → IsFirst (suc from) to r
      → IsFirst from to r
  loop_step from to none h f =
      λ o lo hi. elim (Nat-split from o lo) [ inl e ↦ rw (← e) h | inr lt ↦ f o lt hi ]
  loop_step from to (some i) h (offset, lo, hi, e, ready, before) = (
    offset,
    omega arith,
    hi,
    e,
    ready,
    λ o a b. elim (Nat-split from o a) [ inl p ↦ rw (← p) h | inr lt ↦ before o lt b ],
  )

  find_ready_loop-IsFirst :
      (left from : ℕ)
      → IsFirst from (from + left) (find_ready_loop d s now require_pending left from)
  unfolding find_ready_loop
  find_ready_loop-IsFirst zero from = λ o lo hi. absurd (omega arith)
  find_ready_loop-IsFirst (suc left) from = elim (Bool-cases (ready_at from)) [
    | inl e ↦ rw e (from, omega arith, omega arith, refl, e, λ o lo hi. absurd (omega arith))
    | inr e ↦ rw e (
        loop_step from (from + suc left) (find_ready_loop d s now require_pending left (suc from)) e
          (rw (shift from left) (find_ready_loop-IsFirst left (suc from))))
  ]

  -- The search finds the first accepted position from the cursor on, round the publish order, or none
  -- of them is accepted.
  pub find_next_ready_subscription-IsFirst :
      IsFirst 0 (length s.publish_order) (find_next_ready_subscription d s now require_pending)
  unfolding find_next_ready_subscription
  find_next_ready_subscription-IsFirst =
      subst (λ n. IsFirst 0 n (find_ready_loop d s now require_pending (length s.publish_order) 0))
        (zero-add (length s.publish_order)) (find_ready_loop-IsFirst (length s.publish_order) 0)
