-- ===== src/Pb/StatePb/RoundTrip.antt =====
-- BlockState: the size of what Marshal writes, and its round trip.
use wordle.Prelude.{ℕ, ◌<◌, ◌^◌, ◌≡◌, refl, sym, ap, ◌∙◌, arith, Bool}
use wordle.Prelude.{Bytes, List, [], ◌∷◌, ◌++◌, length, All, All-map}
use wordle.Prelude.Int.{pattern_of, pattern_of-lt, signed, signed-pattern_of}
use wordle.Types.{BlockState, StateChange, no_block_state, IsWireChange}
use wordle.Pb.Varint.{ok}
use wordle.Pb.Varint.RoundTrip.{sov-le}
use wordle.Pb.Field.{skip_field, len_field, unmarshal, put_all}
use wordle.Pb.Field.Sizes.{length-put_len, length-put_nonzero, length-put_all}
use wordle.Pb.Field.Parses.{
  Parses, Parses-end, Reads, nonzero-Parses, repeated-Parses, read_len-encode,
}
use wordle.Pb.ChangePb.{marshal_change, size_change, length-marshal_change, size_change-le}
use wordle.Pb.ChangePb.{length-marshal_change-le, unmarshal-marshal_change, flag}
use wordle.Pb.StatePb.{
  marshal_vote, size_vote, marshal_state, size_state, state_fields, unmarshal_state,
}
use wordle.Pb.StatePb.{
  add_validator, add_vote, add_change, vote_field, change_field, put_vote, IsWireState,
}
use wordle.Pb.StatePb.Votes.{entry_loop_fuel, foldl-put_vote_nil}
use mathlib.Core.List.{foldl, append_assoc, append-nil}

length-marshal_vote :
    (p : Bytes × Bool) → length p.0 < 2 ^ 30 → length (marshal_vote p) ≡ size_vote p
unfolding marshal_vote size_vote
length-marshal_vote (k, v) h =
    omega (arith, length-put_len 0xa k (0x10 ∷ flag v ∷ []) (omega arith))

size_vote-le : (p : Bytes × Bool) → length p.0 < 2 ^ 30 → size_vote p < 2 ^ 32
unfolding size_vote
size_vote-le (k, v) h = omega (arith, sov-le (length k) (omega arith))

vote_small : (p : Bytes × Bool) → length p.0 < 2 ^ 30 → length (marshal_vote p) < 2 ^ 32
vote_small p h = omega (arith, length-marshal_vote p h, size_vote-le p h)

module _ (l : ℕ) (long : l < 2 ^ 63) where
  validators-Reads :
      (xs : List Bytes) (m : BlockState)
      → All (λ s. length s < 2 ^ 32) xs
      → Reads state_fields skip_field l 0x12 (λ s. s) add_validator xs m
  unfolding state_fields len_field
  validators-Reads [] m h = tt
  validators-Reads (x ∷ xs) m (h, hs) = (
    (λ tail inside. rw (read_len-encode l x tail h inside long)),
    validators-Reads xs (add_validator m x) hs,
  )

  votes-Reads :
      (xs : List (Bytes × Bool)) (m : BlockState)
      → All (λ p. length p.0 < 2 ^ 30) xs
      → Reads state_fields skip_field l 0x1a marshal_vote add_vote xs m
  unfolding state_fields vote_field
  votes-Reads [] m h = tt
  votes-Reads ((k, v) ∷ xs) m (h, hs) = (
    (λ tail inside. rw (
      read_len-encode l (marshal_vote (k, v)) tail (vote_small (k, v) h) inside long,
      entry_loop_fuel l k v tail h inside long,
    )),
    votes-Reads xs (add_vote m (k, v)) hs,
  )

  changes-Reads :
      (xs : List StateChange) (m : BlockState)
      → All IsWireChange xs
      → Reads state_fields skip_field l 0x22 marshal_change add_change xs m
  unfolding state_fields change_field
  changes-Reads [] m h = tt
  changes-Reads (c ∷ xs) m (h, hs) = (
    (λ tail inside. rw (
      read_len-encode l (marshal_change c) tail (length-marshal_change-le c h) inside long,
      unmarshal-marshal_change c h,
    )),
    changes-Reads xs (add_change m c) hs,
  )

foldl-add_validator :
    (xs : List Bytes) (m : BlockState)
    → foldl add_validator m xs ≡ record m { validators = m.validators ++ xs }
foldl-add_validator [] m = λ i. record m { validators = sym (append-nil m.validators) i }
foldl-add_validator (x ∷ xs) m = foldl-add_validator xs (add_validator m x) ∙ λ i. record m {
  validators = append_assoc m.validators (x ∷ []) xs i;
}

foldl-add_change :
    (xs : List StateChange) (m : BlockState)
    → foldl add_change m xs ≡ record m { changes = m.changes ++ xs }
foldl-add_change [] m = λ i. record m { changes = sym (append-nil m.changes) i }
foldl-add_change (x ∷ xs) m = foldl-add_change xs (add_change m x) ∙ λ i. record m {
  changes = append_assoc m.changes (x ∷ []) xs i;
}

foldl-add_vote :
    (xs : List (Bytes × Bool)) (m : BlockState)
    → foldl add_vote m xs ≡ record m { votes = foldl put_vote m.votes xs }
foldl-add_vote [] m = refl
foldl-add_vote (x ∷ xs) m = foldl-add_vote xs (add_vote m x)

-- What the folds over the fields build is the message.
rebuild :
    (m : BlockState)
    → IsWireState m
    → foldl add_change
        (foldl add_vote
          (foldl add_validator
            (record no_block_state { height = signed 64 (pattern_of 64 m.height) })
            m.validators)
          m.votes)
        m.changes
      ≡ m
rebuild m w =
    foldl-add_change m.changes _
    ∙ ap (λ (r : BlockState). record r { changes = r.changes ++ m.changes })
        (foldl-add_vote m.votes _
          ∙ ap (λ (r : BlockState). record r { votes = foldl put_vote r.votes m.votes })
              (foldl-add_validator m.validators _))
    ∙ λ i. record m {
      height = signed-pattern_of m.height w.height i;
      votes = foldl-put_vote_nil m.votes w.distinct i;
    }

-- Unmarshal gives back the block state that Marshal wrote, where its height is an int64, its votes have
-- distinct keys, the key and the value of each change are nil where they are empty, and its parts fit
-- the lengths of IsWireState.
pub unmarshal-marshal_state :
    (m : BlockState) → IsWireState m → unmarshal_state (marshal_state m) ≡ ok m
unfolding unmarshal_state unmarshal marshal_state state_fields
unmarshal-marshal_state m w = parses (length (marshal_state m)) (omega arith) (omega arith)
  where
    l : ℕ
    l = length (marshal_state m)

    parses : Parses state_fields skip_field l (marshal_state m) no_block_state m
    parses =
        nonzero-Parses state_fields skip_field l 0x8 (omega arith) (omega arith) w.fits
          (λ v. record no_block_state { height = signed 64 v }) (pattern_of 64 m.height) _ _ m refl
          (λ rest. refl) refl (pattern_of-lt m.height)
          (repeated-Parses state_fields skip_field l 0x12 (λ s. s) add_validator m.validators _ _ m
            (omega arith) (omega arith) w.fits refl
            (validators-Reads l w.fits m.validators _ w.validators)
            (repeated-Parses state_fields skip_field l 0x1a marshal_vote add_vote m.votes _ _ m
              (omega arith) (omega arith) w.fits refl (votes-Reads l w.fits m.votes _ w.votes)
              (repeated-Parses state_fields skip_field l 0x22 marshal_change add_change m.changes _
                _ m (omega arith) (omega arith) w.fits refl
                (changes-Reads l w.fits m.changes _ w.changes)
                (rw (rebuild m w) (Parses-end _ _ _ m)))))

-- For a block state within the lengths of IsWireState, Size is the length of what Marshal writes, so the buffer of Size bytes is filled exactly.
pub length-marshal_state :
    (m : BlockState) → IsWireState m → length (marshal_state m) ≡ size_state m
unfolding marshal_state size_state
length-marshal_state m w = omega (
  arith,
  length-put_nonzero 0x8 (pattern_of 64 m.height)
      (put_all 0x12 (λ s. s) m.validators
        (put_all 0x1a marshal_vote m.votes (put_all 0x22 marshal_change m.changes [])))
      (pattern_of-lt m.height),
  length-put_all 0x12 (λ s. s) (λ s. length s) m.validators
      (put_all 0x1a marshal_vote m.votes (put_all 0x22 marshal_change m.changes []))
      (All-map (λ s h. (refl, h)) m.validators w.validators),
  length-put_all 0x1a marshal_vote size_vote m.votes (put_all 0x22 marshal_change m.changes [])
      (All-map (λ p h. (length-marshal_vote p h, size_vote-le p h)) m.votes w.votes),
  length-put_all 0x22 marshal_change size_change m.changes []
      (All-map (λ c h. (length-marshal_change c h, size_change-le c h)) m.changes w.changes),
)
