-- ===== src/Prelude/Maps.antt =====
-- Go maps with text keys, as association lists in the order in which the map is walked.
use mathlib.Core.Path.{◌≡◌, refl}
use mathlib.Core.Option.{Option, none, some}
use mathlib.Core.List.{List, [], ◌∷◌}
use native.Mathlib.Omega.{arith}
use wordle.Prelude.Tests.{if◌then◌else◌}
use wordle.Prelude.Slices.{Bytes, beq, beq_iff}

abbrev pub Map : Type 0 → Type 0
Map V = List (Bytes × V)

module _ {V : Type 0} where
  unfoldable pub lookup : Bytes → Map V → Option V
  lookup k [] = none
  lookup k ((j, v) ∷ m) = let rest = lookup k m in if beq j k then some v else rest

  -- `m[k] = v`
  unfoldable pub put : Bytes → V → Map V → Map V
  put k v [] = (k, v) ∷ []
  put k v ((j, w) ∷ m) = let rest = put k v m in if beq j k then (j, v) ∷ m else (j, w) ∷ rest

  -- `delete(m, k)`
  unfoldable pub discard : Bytes → Map V → Map V
  discard k [] = []
  discard k ((j, w) ∷ m) = let rest = discard k m in if beq j k then rest else (j, w) ∷ rest

  pub lookup-put :
      (k j : Bytes) (v : V) (m : Map V)
      → lookup j (put k v m) ≡ (if beq k j then some v else lookup j m)
  unfolding lookup put
  lookup-put k j v [] = refl
  lookup-put k j v ((i, w) ∷ m) =
      ground (arith, lookup-put k j v m, beq_iff i k, beq_iff i j, beq_iff k j)

  pub lookup-discard :
      (k j : Bytes) (m : Map V) → lookup j (discard k m) ≡ (if beq k j then none else lookup j m)
  unfolding lookup discard
  lookup-discard k j [] = ground arith
  lookup-discard k j ((i, w) ∷ m) =
      ground (arith, lookup-discard k j m, beq_iff i k, beq_iff i j, beq_iff k j)
