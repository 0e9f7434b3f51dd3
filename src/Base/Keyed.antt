-- ===== src/Base/Keyed.antt =====
-- A map over any type of keys with a test for equality, as an association list.
use mathlib.Core.Path.{◌≡◌, refl}
use mathlib.Core.Bool.{Bool, true}
use mathlib.Core.Option.{Option, none, some}
use mathlib.Core.List.{List, [], ◌∷◌}
use mathlib.Core.Logic.{◌↔◌}
use Prim.Native.Nat.{suc, ◌≤◌}
use native.Mathlib.Omega.{arith}
use opcuapp.Base.Tests.{if◌then◌else◌}
use opcuapp.Base.Lists.{length}

pub record Key {ℓ} (K : Type ℓ) : Type ℓ where
  pub same : K → K → Bool
  pub same_iff : (a b : K) → (same a b ≡ true) ↔ (a ≡ b)

module _ {ℓ κ} {K : Type ℓ} {V : Type κ} ⦃key : Key K⦄ where
  unfoldable pub find : K → List (K × V) → Option V
  find k [] = none
  find k ((other, old) ∷ m) = if key.same other k then some old else find k m

  -- `insert_or_assign`
  unfoldable pub assign : K → V → List (K × V) → List (K × V)
  assign k v [] = (k, v) ∷ []
  assign k v ((j, w) ∷ m) = if key.same j k then (k, v) ∷ m else (j, w) ∷ assign k v m

  unfoldable pub remove : K → List (K × V) → List (K × V)
  remove k [] = []
  remove k ((j, w) ∷ m) = if key.same j k then remove k m else (j, w) ∷ remove k m

  pub find-assign :
      (k j : K) (v : V) (m : List (K × V))
      → find j (assign k v m) ≡ (if key.same k j then some v else find j m)
  unfolding find assign
  find-assign k j v [] = refl
  find-assign k j v ((i, w) ∷ m) =
      ground (arith, find-assign k j v m, key.same_iff i k, key.same_iff k j, key.same_iff i j)

  pub find-remove :
      (k j : K) (m : List (K × V)) → find j (remove k m) ≡ (if key.same k j then none else find j m)
  unfolding find remove
  find-remove k j [] = ground arith
  find-remove k j ((i, w) ∷ m) =
      ground (arith, find-remove k j m, key.same_iff i k, key.same_iff k j, key.same_iff i j)

  pub length-remove : (k : K) (m : List (K × V)) → length (remove k m) ≤ length m
  unfolding remove
  length-remove k [] = omega arith
  length-remove k ((i, w) ∷ m) = ground (arith, length-remove k m)

  pub length-assign : (k : K) (v : V) (m : List (K × V)) → length (assign k v m) ≤ suc (length m)
  unfolding assign
  length-assign k v [] = omega arith
  length-assign k v ((i, w) ∷ m) = ground (arith, length-assign k v m)
