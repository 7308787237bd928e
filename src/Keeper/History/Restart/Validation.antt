-- ===== src/Keeper/History/Restart/Validation.antt =====
-- GenesisState.Validate of lists whose indices are distinct.
use wordle.Prelude.{
  ◌≡◌, refl, false, Bool-cases, inl, inr, none, some, Bytes, List, [], ◌∷◌, All, map, beq,
}
use wordle.Exec.{ok}
use wordle.Types.Keys.{guess_key}
use wordle.Types.Genesis.{GenesisState, validate, has_duplicate, seen_key}
use wordle.Keeper.Entries.{IsDistinct, first_of, key_of}
use wordle.Keeper.Guesses.Listing.{guess_index}
use wordle.Keeper.Wordles.Listing.{wordle_index}

module _ {A : Type 0} (index : A → Bytes) where
  -- No element has an index that the list does not find.
  absent-All :
      (i : Bytes) (xs : List A) → first_of index i xs ≡ none → All (λ x. beq (index x) i ≡ false) xs
  unfolding first_of
  absent-All i [] h = tt
  absent-All i (x ∷ xs) h = elim (Bool-cases (beq (index x) i)) [
    | inl t ↦ let bad : some x ≡ none = rw t at h in absurd (cc)
    | inr f ↦ (f, absent-All i xs (rw f at h))
  ]

  unseen_behind :
      (x y : A) (seen : List Bytes)
      → beq (index y) (index x) ≡ false
      → seen_key (guess_key (index y)) seen ≡ false
      → seen_key (guess_key (index y)) (guess_key (index x) ∷ seen) ≡ false
  unfolding seen_key
  unseen_behind x y seen far h = rw (key_of index y (guess_key (index y)) (index x) refl, far) h

  All-and :
      {P Q R : A → Type 0} (f : (x : A) → P x → Q x → R x) (xs : List A)
      → All P xs
      → All Q xs
      → All R xs
  All-and f [] h k = tt
  All-and f (x ∷ xs) (h, hs) (k, ks) = (f x h k, All-and f xs hs ks)

  no_duplicate :
      (xs : List A) (seen : List Bytes)
      → IsDistinct index xs
      → All (λ x. seen_key (guess_key (index x)) seen ≡ false) xs
      → has_duplicate seen (map (λ x. guess_key (index x)) xs) ≡ false
  unfolding has_duplicate
  no_duplicate [] seen d h = refl
  no_duplicate (x ∷ xs) seen (n, d) (h, hs) = rw h (
      no_duplicate xs (guess_key (index x) ∷ seen) d (
        All-and (λ y far unseen. unseen_behind x y seen far unseen) xs (absent-All (index x) xs n)
          hs))

  All-none : (xs : List A) → All (λ x. seen_key (guess_key (index x)) [] ≡ false) xs
  unfolding seen_key
  All-none [] = tt
  All-none (x ∷ xs) = (refl, All-none xs)

pub validate-IsDistinct :
    (gs : GenesisState)
    → IsDistinct wordle_index gs.wordle_list
    → IsDistinct guess_index gs.guess_list
    → validate gs ≡ ok tt
unfolding validate
validate-IsDistinct gs ws g =
    rw
      (
        no_duplicate wordle_index gs.wordle_list [] ws (All-none wordle_index gs.wordle_list),
        no_duplicate guess_index gs.guess_list [] g (All-none guess_index gs.guess_list),
      )
      refl
