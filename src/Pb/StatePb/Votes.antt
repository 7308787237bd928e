-- ===== src/Pb/StatePb/Votes.antt =====
-- The map of votes: reading an entry, and filling the map.
use wordle.Prelude.{
  ℕ, zero, suc, ◌/◌, ◌%◌, ◌^◌, ◌≤◌, ◌<◌, ◌≡◌, refl, sym, ap, ◌∙◌, arith, Bool, false,
}
use wordle.Prelude.{Bytes, List, [], ◌∷◌, ◌++◌, length, length-append, beq}
use wordle.Prelude.{All, lt→ltb}
use wordle.Pb.Varint.{ok, encode_varint}
use wordle.Pb.Field.{put_len}
use wordle.Pb.Field.Parses.{read_tag, read_len-encode, length-encode-le}
use wordle.Pb.ChangePb.{flag, flag_read, flag-lt}
use wordle.Pb.StatePb.{marshal_vote, put_vote, entry_field, entry_loop, IsDistinct}
use mathlib.Core.List.{append_assoc, foldl, append-nil}

put_len-append : (t : ℕ) (s x y : Bytes) → put_len t s x ++ y ≡ put_len t s (x ++ y)
unfolding put_len encode_varint
put_len-append t s x y = simp append_assoc

entry_done :
    (fuel l : ℕ) (rest : Bytes) (kv : Bytes × Bool)
    → entry_loop fuel l (length rest) rest kv ≡ ok kv
unfolding entry_loop
entry_done zero l rest kv = ground arith
entry_done (suc fuel) l rest kv = ground arith

-- One round on an entry whose next tag is a byte.
entry_round :
    (fuel l after t : ℕ) (rest : Bytes) (kv : Bytes × Bool)
    → after < suc (length rest)
    → t < 128
    → entry_loop (suc fuel) l after (t ∷ rest) kv
      ≡ entry_field (entry_loop fuel l after) l after (t ∷ rest) (t / 8 % 2 ^ 32) rest kv
unfolding entry_loop
entry_round fuel l after t rest kv more small =
    rw (lt→ltb after (suc (length rest)) more, read_tag t rest small)

entry_value :
    (fuel l : ℕ) (k : Bytes) (v w : Bool) (rest : Bytes)
    → entry_loop (suc fuel) l (length rest) (0x10 ∷ flag v ∷ rest) (k, w) ≡ ok (k, v)
unfolding entry_field
entry_value fuel l k v w rest =
    entry_round fuel l (length rest) 0x10 (flag v ∷ rest) (k, w) (omega arith) (omega arith)
    ∙ rw (read_tag (flag v) rest (flag-lt v), flag_read v, entry_done fuel l rest (k, v))

entry_key :
    (fuel l : ℕ) (k j : Bytes) (v w : Bool) (rest : Bytes)
    → length k < 2 ^ 30
    → length (put_len 0xa k (0x10 ∷ flag v ∷ rest)) ≤ l
    → l < 2 ^ 63
    → entry_loop (suc (suc fuel)) l (length rest) (put_len 0xa k (0x10 ∷ flag v ∷ rest)) (j, w)
      ≡ ok (k, v)
unfolding entry_field put_len
entry_key fuel l k j v w rest hk fits hl =
    entry_round (suc fuel) l (length rest) 0xa (encode_varint (length k) (k ++ value)) (j, w)
      (omega (arith, room, length-append k value)) (omega arith)
    ∙ rw (read_len-encode l k value (omega arith) (omega (arith, room)) hl)
        (entry_value fuel l k v w rest)
  where
    value : Bytes
    value = 0x10 ∷ flag v ∷ rest

    room : length (k ++ value) ≤ length (encode_varint (length k) (k ++ value))
    room = length-encode-le (length k) (k ++ value)

-- Reading the entry that Marshal writes, in front of any rest.
entry_loop-marshal_vote :
    (fuel l : ℕ) (k : Bytes) (v : Bool) (rest : Bytes)
    → length k < 2 ^ 30
    → length (marshal_vote (k, v) ++ rest) ≤ l
    → l < 2 ^ 63
    → entry_loop (suc (suc fuel)) l (length rest) (marshal_vote (k, v) ++ rest) ([], false)
      ≡ ok (k, v)
unfolding marshal_vote
entry_loop-marshal_vote fuel l k v rest hk inside hl =
    let e = put_len-append 0xa k (0x10 ∷ flag v ∷ []) rest in
    rw e (entry_key fuel l k [] v false rest hk (rw e at inside) hl)

-- The fuel that the field is given is enough.
pub entry_loop_fuel :
    (l : ℕ) (k : Bytes) (v : Bool) (rest : Bytes)
    → length k < 2 ^ 30
    → length (marshal_vote (k, v) ++ rest) ≤ l
    → l < 2 ^ 63
    → entry_loop
        (suc (length (marshal_vote (k, v))))
        l
        (length rest)
        (marshal_vote (k, v) ++ rest)
        ([], false)
      ≡ ok (k, v)
unfolding marshal_vote put_len
entry_loop_fuel l k v rest hk inside hl =
    entry_loop-marshal_vote (length (encode_varint (length k) (k ++ 0x10 ∷ flag v ∷ []))) l k v rest
      hk inside hl

abbrev Fresh : Bytes → List (Bytes × Bool) → Type 0
Fresh k votes = All (λ p. beq p.0 k ≡ false) votes

put_vote-Fresh :
    (votes : List (Bytes × Bool)) (k : Bytes) (v : Bool)
    → Fresh k votes
    → put_vote votes (k, v) ≡ votes ++ (k, v) ∷ []
unfolding put_vote
put_vote-Fresh [] k v h = refl
put_vote-Fresh ((j, w) ∷ votes) k v (h, hs) =
    rw h (ap (λ t. (j, w) ∷ t) (put_vote-Fresh votes k v hs))

Fresh-append :
    (votes : List (Bytes × Bool)) (j k : Bytes) (v : Bool)
    → Fresh j votes
    → beq k j ≡ false
    → Fresh j (votes ++ (k, v) ∷ [])
Fresh-append [] j k v h e = (e, tt)
Fresh-append ((i, w) ∷ votes) j k v (h, hs) e = (h, Fresh-append votes j k v hs e)

AllFresh : List (Bytes × Bool) → List (Bytes × Bool) → Type 0
AllFresh votes more = All (λ p. Fresh p.0 votes) more

AllFresh-append :
    (votes more : List (Bytes × Bool)) (k : Bytes) (v : Bool)
    → AllFresh votes more
    → All (λ p. beq k p.0 ≡ false) more
    → AllFresh (votes ++ (k, v) ∷ []) more
unfolding AllFresh
AllFresh-append votes [] k v h e = tt
AllFresh-append votes (p ∷ more) k v (h, hs) (e, es) =
    (Fresh-append votes p.0 k v h e, AllFresh-append votes more k v hs es)

foldl-put_vote :
    (votes more : List (Bytes × Bool))
    → AllFresh votes more
    → IsDistinct more
    → foldl put_vote votes more ≡ votes ++ more
unfolding AllFresh
foldl-put_vote votes [] h d = sym (append-nil votes)
foldl-put_vote votes ((k, v) ∷ more) (h, hs) (d, ds) = rw (put_vote-Fresh votes k v h) (
    foldl-put_vote (votes ++ (k, v) ∷ []) more (AllFresh-append votes more k v hs d) ds
    ∙ append_assoc votes ((k, v) ∷ []) more)

AllFresh-nil : (more : List (Bytes × Bool)) → AllFresh [] more
unfolding AllFresh
AllFresh-nil [] = tt
AllFresh-nil (p ∷ more) = (tt, AllFresh-nil more)

-- Filling the map with distinct keys, in order, gives the list back.
pub foldl-put_vote_nil :
    (votes : List (Bytes × Bool)) → IsDistinct votes → foldl put_vote [] votes ≡ votes
foldl-put_vote_nil votes d = foldl-put_vote [] votes (AllFresh-nil votes) d
