-- ===== src/Base/Assoc.antt =====
-- A map whose keys are numbers, as an association list: `std::unordered_map`, of which nothing but
-- its entries is used. Iteration goes through the list in its order.
use mathlib.Core.Path.{◌≡◌, refl}
use mathlib.Core.Option.{Option, none, some}
use mathlib.Core.List.{List, [], ◌∷◌}
use Prim.Native.Nat.{ℕ}
use native.Mathlib.Omega.{arith}
use opcuapp.Base.Tests.{◌==◌, if◌then◌else◌}

module _ {ℓ} {V : Type ℓ} where
  unfoldable pub erase : ℕ → List (ℕ × V) → List (ℕ × V)
  erase id [] = []
  erase id ((key, old) ∷ entries) =
      if key == id then erase id entries else (key, old) ∷ erase id entries

  -- `emplace`: an entry that is there stays.
  unfoldable pub emplace : ℕ → V → List (ℕ × V) → List (ℕ × V)
  emplace id new [] = (id, new) ∷ []
  emplace id new ((key, old) ∷ entries) =
      if key == id then (key, old) ∷ entries else (key, old) ∷ emplace id new entries

  unfoldable pub lookup : ℕ → List (ℕ × V) → Option V
  lookup id [] = none
  lookup id ((key, old) ∷ entries) = if key == id then some old else lookup id entries

  -- `insert_or_assign`
  unfoldable pub insert : ℕ → V → List (ℕ × V) → List (ℕ × V)
  insert id new [] = (id, new) ∷ []
  insert id new ((key, old) ∷ entries) =
      if key == id then (id, new) ∷ entries else (key, old) ∷ insert id new entries

  pub lookup-erase :
      (id other : ℕ) (entries : List (ℕ × V))
      → lookup other (erase id entries) ≡ (if id == other then none else lookup other entries)
  unfolding lookup erase
  lookup-erase id other [] = ground arith
  lookup-erase id other ((key, old) ∷ entries) = ground (arith, lookup-erase id other entries)

  pub lookup-insert :
      (id other : ℕ) (new : V) (entries : List (ℕ × V))
      → lookup other (insert id new entries)
        ≡ (if id == other then some new else lookup other entries)
  unfolding lookup insert
  lookup-insert id other new [] = refl
  lookup-insert id other new ((key, old) ∷ entries) =
      ground (arith, lookup-insert id other new entries)
