-- ===== src/Pb/Field/Parses.antt =====
-- What the loop of Unmarshal does on the fields that Marshal writes.
use wordle.Prelude.{
  ℕ, zero, suc, ◌/◌, ◌%◌, ◌^◌, ◌≤◌, ◌<◌, ◌≡◌, refl, ◌∙◌, arith, Option, some, none, List,
}
use wordle.Types.{slice, IsCanonical}
use mathlib.Core.List.{foldl}
use wordle.Prelude.{Bytes, [], ◌∷◌, ◌++◌, length, length-append, take-append, drop-append}
use wordle.Pb.Varint.{Decoded, ok, ◌>>=◌, read_varint, encode_varint, groups}
use wordle.Pb.Varint.RoundTrip.{read-encode}
use wordle.Pb.Field.{
  read_len, len_field, int_field, read_fields, Fields, Unknown, put_len, put_nonempty, put_nonzero,
  put_all, dispatch, select,
}

pub read_tag : (t : ℕ) (rest : Bytes) → t < 128 → read_varint (t ∷ rest) 0 0 ≡ ok (t, rest)
unfolding read_varint
read_tag t rest h = ground arith

pub length-encode-le : (v : ℕ) (tail : Bytes) → length tail ≤ length (encode_varint v tail)
unfolding encode_varint
length-encode-le v tail = omega (arith, length-append (groups 9 v) tail)

pub read_len-encode :
    (l : ℕ) (s tail : Bytes)
    → length s < 2 ^ 32
    → length (s ++ tail) ≤ l
    → l < 2 ^ 63
    → read_len l (encode_varint (length s) (s ++ tail)) ≡ ok (s, tail)
unfolding read_len
read_len-encode l s tail small fits hl =
    rw (read-encode (length s) (s ++ tail) (omega arith))
      (ground (arith, length-append s tail, take-append s tail, drop-append s tail))

module _ {M : Type 0} (fields : Fields M) (unknown : Unknown M) (l : ℕ) where
  -- From `m` the loop reads all of the buffer and ends in `m'`, on enough fuel.
  abbrev pub Parses : Bytes → M → M → Type 0
  Parses buffer m m' =
      (fuel : ℕ)
      → length buffer ≤ fuel
      → length buffer ≤ l
      → read_fields fields unknown l fuel buffer m ≡ ok m'

  pub Parses-end : (m : M) → Parses [] m m
  unfolding read_fields
  Parses-end m zero h k = refl
  Parses-end m (suc fuel) h k = refl

  dispatch-known :
      (again : Bytes → M → Decoded M) (buffer rest : Bytes) (t : ℕ) (m : M)
      (r : Decoded (M × Bytes))
      → t < 128
      → t % 8 < 3
      → 8 ≤ t
      → fields l (t / 8) (t % 8) rest m ≡ some r
      → dispatch fields unknown l again buffer t rest m ≡ (r >>= λ p. again p.1 p.0)
  unfolding dispatch select
  dispatch-known again buffer rest t m r small wt big e =
      let n : t / 8 % 2 ^ 32 ≡ t / 8 = omega arith in rw (n, e) (ground arith)

  -- One round on a field with a one-byte tag.
  round :
      (t : ℕ) (buffer : Bytes) (m : M) (fuel : ℕ) (r : Decoded (M × Bytes))
      → t < 128
      → t % 8 < 3
      → 8 ≤ t
      → fields l (t / 8) (t % 8) buffer m ≡ some r
      → read_fields fields unknown l (suc fuel) (t ∷ buffer) m
        ≡ (r >>= λ p. read_fields fields unknown l fuel p.1 p.0)
  unfolding read_fields
  round t buffer m fuel r small wt big e =
      rw (read_tag t buffer small) (
        dispatch-known (read_fields fields unknown l fuel) (t ∷ buffer) buffer t m r small wt big e)

  module _ (t : ℕ) (small : t < 128) (big : 8 ≤ t) (long : l < 2 ^ 63) where
    -- A length-delimited field whose case of the switch gives `m2`.
    pub delimited-Parses :
        (s tail : Bytes) (m m2 m' : M)
        → t % 8 ≡ 2
        → (length (s ++ tail) ≤ l
            → fields l (t / 8) (t % 8) (encode_varint (length s) (s ++ tail)) m
              ≡ some (ok (m2, tail)))
        → Parses tail m2 m'
        → Parses (put_len t s tail) m m'
    unfolding put_len
    delimited-Parses s tail m m2 m' wt e p zero fits inside = absurd (omega arith)
    delimited-Parses s tail m m2 m' wt e p (suc fuel) fits inside =
        round t _ m fuel _ small (omega arith) big (e (omega (arith, room)))
        ∙ p fuel (omega (arith, room, length-append s tail))
            (omega (arith, room, length-append s tail))
      where
        room : length (s ++ tail) ≤ length (encode_varint (length s) (s ++ tail))
        room = length-encode-le (length s) (s ++ tail)

    pub len-Parses :
        (put : Bytes → M) (s tail : Bytes) (m m' : M)
        → t % 8 ≡ 2
        → ((rest : Bytes) → fields l (t / 8) (t % 8) rest m ≡ some (len_field l 2 rest put))
        → length s < 2 ^ 32
        → Parses tail (put s) m'
        → Parses (put_len t s tail) m m'
    unfolding len_field
    len-Parses put s tail m m' wt e hs p =
        delimited-Parses s tail m (put s) m' wt
          (λ inside. e _ ∙ rw (read_len-encode l s tail hs inside long)) p

    -- A field that Marshal leaves out when it is empty.
    pub nonempty-Parses :
        (put : Bytes → M) (s tail : Bytes) (m m' : M)
        → t % 8 ≡ 2
        → ((rest : Bytes) → fields l (t / 8) (t % 8) rest m ≡ some (len_field l 2 rest put))
        → put [] ≡ m
        → length s < 2 ^ 32
        → Parses tail (put s) m'
        → Parses (put_nonempty t s tail) m m'
    unfolding put_nonempty
    nonempty-Parses put [] tail m m' wt e same hs p = rw same at p
    nonempty-Parses put (b ∷ bs) tail m m' wt e same hs p =
        len-Parses put (b ∷ bs) tail m m' wt e hs p

    -- An integer that Marshal leaves out when it is 0.
    pub nonzero-Parses :
        (put : ℕ → M) (v : ℕ) (tail : Bytes) (m m' : M)
        → t % 8 ≡ 0
        → ((rest : Bytes) → fields l (t / 8) (t % 8) rest m ≡ some (int_field 0 rest put))
        → put 0 ≡ m
        → v < 2 ^ 64
        → Parses tail (put v) m'
        → Parses (put_nonzero t v tail) m m'
    unfolding put_nonzero int_field
    nonzero-Parses put zero tail m m' wt e same hv p fuel fits inside =
        (rw same at p) fuel fits inside
    nonzero-Parses put (suc v) tail m m' wt e same hv p zero fits inside = absurd (omega arith)
    nonzero-Parses put (suc v) tail m m' wt e same hv p (suc fuel) fits inside =
        round t _ m fuel _ small (omega arith) big (e _)
        ∙ rw (int_field, read-encode (suc v) tail hv)
            (p fuel (omega (arith, length-encode-le (suc v) tail))
              (omega (arith, length-encode-le (suc v) tail)))

    -- A byte slice that is left out when it is nil.
    pub optional-Parses :
        (fill : Option Bytes → M) (o : Option Bytes) (tail : Bytes) (m' : M)
        → t % 8 ≡ 2
        → ((rest : Bytes)
            → fields l (t / 8) (t % 8) rest (fill none)
              ≡ some (len_field l 2 rest (λ s. fill (some s))))
        → IsCanonical o
        → length (slice o) < 2 ^ 32
        → Parses tail (fill o) m'
        → Parses (put_nonempty t (slice o) tail) (fill none) m'
    unfolding put_nonempty
    optional-Parses fill none tail m' wt e c h p = p
    optional-Parses fill (some []) tail m' wt e c h p = absurd c
    optional-Parses fill (some (b ∷ bs)) tail m' wt e c h p =
        len-Parses (λ s. fill (some s)) (b ∷ bs) tail (fill none) m' wt e h p

  module _ {A : Type 0} (t : ℕ) (encode : A → Bytes) (add : M → A → M) where
    -- From `m` on, the case of the switch adds each element in its turn.
    abbrev pub Reads : List A → M → Type 0
    Reads [] m = Unit {0}
    Reads (x ∷ xs) m =
        ((tail : Bytes)
          → length (encode x ++ tail) ≤ l
          → fields l (t / 8) (t % 8) (encode_varint (length (encode x)) (encode x ++ tail)) m
            ≡ some (ok (add m x, tail)))
        × Reads xs (add m x)

    -- A repeated field: one entry for each element, in order.
    pub repeated-Parses :
        (xs : List A) (tail : Bytes) (m m' : M)
        → t < 128
        → 8 ≤ t
        → l < 2 ^ 63
        → t % 8 ≡ 2
        → Reads xs m
        → Parses tail (foldl add m xs) m'
        → Parses (put_all t encode xs tail) m m'
    unfolding put_all
    repeated-Parses [] tail m m' small big long wt e p = p
    repeated-Parses (x ∷ xs) tail m m' small big long wt e p =
        delimited-Parses t small big long (encode x) (put_all t encode xs tail) m (add m x) m' wt
          (e.0 _) (repeated-Parses xs tail (add m x) m' small big long wt e.1 p)
