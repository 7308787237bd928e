-- ===== src/Pb/Field/Ends.antt =====
-- The loops of Unmarshal on the fuel that they are given, which is the length of the buffer.
use wordle.Prelude.{
  ◌≢◌, ℕ, zero, suc, ◌+◌, ◌-◌, ◌*◌, ◌/◌, ◌%◌, ◌^◌, ◌≤◌, ◌<◌, ◌≡◌, refl, arith, Bool, true, false,
  Option, none, some, ◌||◌,
}
use wordle.Prelude.{Bytes, [], ◌∷◌, length, length-drop, drop, ltb, leb, ◌==◌, if◌then◌else◌}
use wordle.Pb.Varint.{Decoded, ok, err, stuck, ◌>>=◌, read_varint}
use wordle.Pb.Varint.{int_overflow, unexpected_eof}
use wordle.Pb.Field.{
  read_len, skip_value, skip_loop, skip, Fields, len_field, int_field, skip_field, select, dispatch,
  read_fields, unmarshal,
}

-- An error, or a value with a property: never `stuck`.
abbrev pub Ends : {A : Type 0} → (A → Type 0) → Decoded A → Type 0
Ends P (ok a) = P a
Ends P (err e) = Unit {0}
Ends P stuck = ⊥

pub not_stuck : {A : Type 0} (P : A → Type 0) (r : Decoded A) → Ends P r → r ≢ stuck
not_stuck P (ok a) h e = absurd (cc)
not_stuck P (err x) h e = absurd (cc)
not_stuck P stuck h e = h

pub bind-Ends :
    {A B : Type 0} (P : A → Type 0) (Q : B → Type 0) (r : Decoded A) (f : A → Decoded B)
    → Ends P r
    → ((a : A) → P a → Ends Q (f a))
    → Ends Q (r >>= f)
bind-Ends P Q (ok a) f h g = g a h
bind-Ends P Q (err e) f h g = tt
bind-Ends P Q stuck f h g = h

pub if-Ends :
    {A : Type 0} (P : A → Type 0) (b : Bool) (x y : Decoded A)
    → (b ≡ true → Ends P x)
    → (b ≡ false → Ends P y)
    → Ends P (if b then x else y)
if-Ends P true x y h k = h refl
if-Ends P false x y h k = k refl

pub weaken-Ends :
    {A : Type 0} (P Q : A → Type 0) (r : Decoded A) → ((a : A) → P a → Q a) → Ends P r → Ends Q r
weaken-Ends P Q (ok a) f h = f a h
weaken-Ends P Q (err e) f h = tt
weaken-Ends P Q stuck f h = h

-- What is read leaves less than there was.
pub read_varint-Ends :
    (buffer : Bytes) (shift acc : ℕ)
    → Ends (λ r. length r.1 < length buffer) (read_varint buffer shift acc)
unfolding read_varint
read_varint-Ends [] shift acc =
    if-Ends _ (leb 64 shift) (err int_overflow) (err unexpected_eof) (λ t. tt) (λ f. tt)
read_varint-Ends (b ∷ rest) shift acc =
    let acc' = acc + b % 128 * 2 ^ shift % 2 ^ 64 in
    let P : ℕ × Bytes → Type 0 = λ r. length r.1 < length (b ∷ rest) in
    if-Ends P (leb 64 shift) _ _ (λ t. tt)
      (λ f.
        if-Ends P (ltb b 128) (ok (acc', rest)) (read_varint rest (shift + 7) acc')
          (λ t. omega arith)
          (λ g.
            weaken-Ends _ P (read_varint rest (shift + 7) acc') (λ r h. omega arith)
              (read_varint-Ends rest (shift + 7) acc')))

pub read_len-Ends :
    (l : ℕ) (buffer : Bytes) → Ends (λ r. length r.1 < length buffer) (read_len l buffer)
unfolding read_len
read_len-Ends l buffer =
    bind-Ends _ _ (read_varint buffer 0 0) _ (read_varint-Ends buffer 0 0) (λ (n, rest) shorter.
      if-Ends _ (leb (2 ^ 63) n) _ _ (λ t. tt)
        (λ f.
          if-Ends _ (leb (2 ^ 63) (l - length rest + n)) _ _ (λ t. tt)
            (λ g.
              if-Ends _ (ltb (length rest) n) _ _ (λ t. tt)
                (λ h. omega (arith, length-drop n rest, shorter)))))

-- skipGuess moves its index behind the tag at least.
skip_value-Ends :
    (l wire_type : ℕ) (buffer : Bytes) (depth i : ℕ)
    → length buffer < l - i
    → Ends (λ r. i < r.0) (skip_value l wire_type buffer depth)
unfolding skip_value
skip_value-Ends l wire_type buffer depth i h =
    let P : ℕ × ℕ → Type 0 = λ r. i < r.0 in
    if-Ends P (wire_type == 0) _ _
      (λ t.
        bind-Ends _ P (read_varint buffer 0 0) _ (read_varint-Ends buffer 0 0)
          (λ r less. omega (arith, less, h)))
      (λ f.
        if-Ends P (wire_type == 1) _ _ (λ t. omega (arith, h))
          (λ f.
            if-Ends P (wire_type == 2) _ _
              (λ t.
                bind-Ends _ P (read_varint buffer 0 0) _ (read_varint-Ends buffer 0 0) (λ r less.
                  if-Ends P (leb (2 ^ 63) r.0) _ _ (λ t. tt) (λ f. omega (arith, less, h))))
              (λ f.
                if-Ends P (wire_type == 3) _ _ (λ t. omega (arith, h))
                  (λ f.
                    if-Ends P (wire_type == 4) _ _
                      (λ t. if-Ends P (depth == 0) _ _ (λ t. tt) (λ f. omega (arith, h)))
                      (λ f. if-Ends P (wire_type == 5) _ _ (λ t. omega (arith, h)) (λ f. tt))))))

skip_loop-Ends :
    (fuel : ℕ) (buffer : Bytes) (i depth : ℕ)
    → length buffer ≤ i + fuel
    → Ends (λ n. i < n) (skip_loop (suc fuel) buffer i depth)
unfolding skip_loop
skip_loop-Ends zero buffer i depth h =
    if-Ends _ (leb (length buffer) i) _ _ (λ t. tt) (λ f. absurd (ground (arith, f)))
skip_loop-Ends (suc fuel) buffer i depth h =
    if-Ends _ (leb (length buffer) i) _ _ (λ t. tt)
      (λ f.
        bind-Ends _ _ (read_varint (drop i buffer) 0 0) _ (read_varint-Ends (drop i buffer) 0 0)
          (λ (wire, rest) less.
            bind-Ends _ _ (skip_value (length buffer) (wire % 8) rest depth) _
              (skip_value-Ends (length buffer) (wire % 8) rest depth i
                (omega (arith, less, length-drop i buffer)))
              (λ (j, depth') further.
                if-Ends _ (leb (2 ^ 63) j) _ _ (λ t. tt)
                  (λ g.
                    if-Ends _ (depth' == 0) _ _ (λ t. further)
                      (λ k.
                        weaken-Ends _ _ (skip_loop (suc fuel) buffer j depth') (λ n m. omega arith)
                          (skip_loop-Ends fuel buffer j depth' (omega arith)))))))

pub skip-Ends : (buffer : Bytes) → Ends (λ n. 0 < n) (skip buffer)
unfolding skip
skip-Ends buffer = skip_loop-Ends (length buffer) buffer 0 0 (omega arith)

-- What a field leaves of the buffer behind its tag.
abbrev pub Leaves : {M : Type 0} → Bytes → Decoded (M × Bytes) → Type 0
Leaves rest r = Ends (λ s. length s.1 ≤ length rest) r

abbrev pub SomeLeaves : {M : Type 0} → Bytes → Option (Decoded (M × Bytes)) → Type 0
SomeLeaves rest none = Unit {0}
SomeLeaves rest (some r) = Leaves rest r

-- Each case of the switch comes to an end.
abbrev pub FieldsEnd : {M : Type 0} → Fields M → Type 0
FieldsEnd {M} fields =
    (l number wire_type : ℕ) (rest : Bytes) (m : M)
    → SomeLeaves rest (fields l number wire_type rest m)

pub case-SomeLeaves :
    {M : Type 0} (rest : Bytes) (b : Bool) (r : Decoded (M × Bytes))
    (others : Option (Decoded (M × Bytes)))
    → Leaves rest r
    → SomeLeaves rest others
    → SomeLeaves rest (if b then some r else others)
case-SomeLeaves rest true r others h k = h
case-SomeLeaves rest false r others h k = k

module _ {M : Type 0} where
  pub len_field-Leaves :
      (l wire_type : ℕ) (rest : Bytes) (put : Bytes → M)
      → Leaves rest (len_field l wire_type rest put)
  unfolding len_field
  len_field-Leaves l wire_type rest put =
      if-Ends _ (wire_type == 2) _ _
        (λ t.
          bind-Ends _ _ (read_len l rest) _ (read_len-Ends l rest) (λ r less. omega (arith, less)))
        (λ f. tt)

  pub int_field-Leaves :
      (wire_type : ℕ) (rest : Bytes) (put : ℕ → M) → Leaves rest (int_field wire_type rest put)
  unfolding int_field
  int_field-Leaves wire_type rest put =
      if-Ends _ (wire_type == 0) _ _
        (λ t.
          bind-Ends _ _ (read_varint rest 0 0) _ (read_varint-Ends rest 0 0)
            (λ r less. omega (arith, less)))
        (λ f. tt)

  -- The next round comes to an end on every shorter buffer.
  abbrev NextEnds : Bytes → (Bytes → M → Decoded M) → Type 0
  NextEnds buffer again =
      (rest : Bytes) (m : M) → length rest < length buffer → Ends (λ n. Unit {0}) (again rest m)

  skip_field-Ends :
      (l : ℕ) (again : Bytes → M → Decoded M) (buffer : Bytes) (m : M)
      → 0 < length buffer
      → NextEnds buffer again
      → Ends (λ n. Unit {0}) (skip_field l again buffer m)
  unfolding skip_field
  skip_field-Ends l again buffer m some_left next =
      bind-Ends _ _ (skip buffer) _ (skip-Ends buffer) (λ n moved.
        if-Ends _ (leb (2 ^ 63) (l - length buffer + n)) _ _ (λ t. tt)
          (λ f.
            if-Ends _ (ltb (length buffer) n) _ _ (λ t. tt)
              (λ g. next (drop n buffer) m (omega (arith, length-drop n buffer, moved)))))

  select-Ends :
      (r : Option (Decoded (M × Bytes))) (again : Bytes → M → Decoded M) (default : Decoded M)
      (buffer rest : Bytes)
      → length rest < length buffer
      → SomeLeaves rest r
      → NextEnds buffer again
      → Ends (λ n. Unit {0}) default
      → Ends (λ n. Unit {0}) (select r again default)
  unfolding select
  select-Ends none again default buffer rest less h next d = d
  select-Ends (some r) again default buffer rest less h next d =
      bind-Ends _ _ r _ h (λ (m, left) k. next left m (omega (arith, k, less)))

  module _ (fields : Fields M) (ends : FieldsEnd fields) where
    read_fields-Ends :
        (fuel l : ℕ) (buffer : Bytes) (m : M)
        → length buffer ≤ fuel
        → Ends (λ n. Unit {0}) (read_fields fields skip_field l fuel buffer m)
    unfolding read_fields dispatch
    read_fields-Ends zero l [] m h = tt
    read_fields-Ends zero l (b ∷ bs) m h = absurd (omega arith)
    read_fields-Ends (suc fuel) l [] m h = tt
    read_fields-Ends (suc fuel) l (b ∷ bs) m h =
        let next : NextEnds (b ∷ bs) (read_fields fields skip_field l fuel) =
          λ rest m' less. read_fields-Ends fuel l rest m' (omega (arith, less)) in
        bind-Ends _ _ (read_varint (b ∷ bs) 0 0) _ (read_varint-Ends (b ∷ bs) 0 0)
          (λ (wire, rest) less.
            if-Ends _ (wire % 8 == 4) _ _ (λ t. tt)
              (λ f.
                if-Ends _ (wire / 8 % 2 ^ 32 == 0 || leb (2 ^ 31) (wire / 8 % 2 ^ 32)) _ _ (λ t. tt)
                  (λ g.
                    select-Ends (fields l (wire / 8 % 2 ^ 32) (wire % 8) rest m) _ _ (b ∷ bs) rest
                      less (ends l (wire / 8 % 2 ^ 32) (wire % 8) rest m) next
                      (skip_field-Ends l _ (b ∷ bs) m (omega arith) next))))

    -- Unmarshal gives a message or an error.
    pub unmarshal-Ends : (m : M) (buffer : Bytes) → Ends (λ n. Unit {0}) (unmarshal fields m buffer)
    unfolding unmarshal
    unmarshal-Ends m buffer =
        read_fields-Ends (length buffer) (length buffer) buffer m (omega arith)
