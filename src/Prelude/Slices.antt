-- ===== src/Prelude/Slices.antt =====
-- Byte strings: Go's `string` and `[]byte` as lists of numbers, their equality and their texts.
use Prim.Native.Nat.{ℕ, ◌<◌}
use Prim.Native.Char.{code}
use Prim.Native.String.{String}
use mathlib.Core.Path.{◌≡◌, refl}
use mathlib.Core.Logic.{◌↔◌, inl, inr}
use mathlib.Core.Bool.{Bool, true, false, ◌&&◌}
use mathlib.Core.List.{List, [], ◌∷◌, ◌++◌}
use native.Mathlib.Omega.{arith}
use wordle.Prelude.Tests.{◌==◌, Bool-cases}

abbrev pub Bytes : Type 0
Bytes = List ℕ

abbrev pub IsByte : ℕ → Type 0
IsByte b = b < 256

-- The bytes of an ASCII text.
abbrev pub codes : String → Bytes
codes String.[] = []
codes (String.◌∷◌ c s) = code c ∷ codes s

unfoldable pub beq : Bytes → Bytes → Bool
beq [] [] = true
beq [] (y ∷ ys) = false
beq (x ∷ xs) [] = false
beq (x ∷ xs) (y ∷ ys) = (x == y) && beq xs ys

pub beq_iff : (xs ys : Bytes) → (beq xs ys ≡ true) ↔ (xs ≡ ys)
unfolding beq
beq_iff [] [] = ((λ h. refl), (λ h. refl))
beq_iff [] (y ∷ ys) = ((λ h. cc), (λ h. cc))
beq_iff (x ∷ xs) [] = ((λ h. cc), (λ h. cc))
beq_iff (x ∷ xs) (y ∷ ys) =
    ((λ h. ground (arith, beq_iff xs ys)), (λ h. ground (arith, beq_iff xs ys)))

pub beq_refl : (xs : Bytes) → beq xs xs ≡ true
beq_refl xs = (beq_iff xs xs).1 refl

pub append_cancel_left : (p xs ys : Bytes) → p ++ xs ≡ p ++ ys → xs ≡ ys
append_cancel_left [] xs ys h = h
append_cancel_left (b ∷ p) xs ys h = append_cancel_left p xs ys (cc)

pub beq-append : (p j k : Bytes) → beq (p ++ j) (p ++ k) ≡ beq j k
unfolding beq
beq-append [] j k = refl
beq-append (b ∷ p) j k = ground (arith, beq-append p j k)

-- Two tests of equivalent equations agree.
pub beq_of_iff : (a b c d : Bytes) → (a ≡ b → c ≡ d) → (c ≡ d → a ≡ b) → beq a b ≡ beq c d
beq_of_iff a b c d f g = elim (Bool-cases (beq a b)) [
  | inl t ↦ rw (t, (beq_iff c d).1 (f ((beq_iff a b).0 t)))
  | inr e ↦ elim (Bool-cases (beq c d)) [
    | inl t ↦ cc ((beq_iff a b).1 (g ((beq_iff c d).0 t)))
    | inr e' ↦ rw (e, e')
  ]
]
