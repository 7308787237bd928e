-- ===== src/Env/Sample/Assoc.antt =====
-- A KV store as an association list, the latest entry first.
use wordle.Prelude.{ℕ, ◌≡◌, refl, ap, ◌∙◌, arith, Option, none, some, inl, inr}
use wordle.Prelude.{
  Bytes, List, [], ◌∷◌, ◌++◌, beq, beq_iff, beq_refl, if◌then◌else◌, Bool-cases, Option-cases, ◌==◌,
  ==_iff,
}
use wordle.Env.Kv.{KvStore, find, IsUnique}

abbrev Assoc : Type 0
Assoc = List (Bytes × Bytes)

unfoldable pub without : Bytes → Assoc → Assoc
without k [] = []
without k ((j, v) ∷ s) = let rest = without k s in if beq j k then rest else (j, v) ∷ rest

unfoldable pub insert : Bytes → Bytes → Assoc → Assoc
insert k v s = (k, v) ∷ s

-- What follows the prefix.
unfoldable pub strip : Bytes → Bytes → Option Bytes
strip [] k = some k
strip (b ∷ p) [] = none
strip (b ∷ p) (c ∷ k) = if b == c then strip p k else none

unfoldable pub below : Bytes → Assoc → Assoc
below p [] = []
below p ((k, v) ∷ s) =
    let rest = below p s in elim (strip p k) [ none ↦ rest | some j ↦ (j, v) ∷ without j rest ]

pub find-without :
    (k j : Bytes) (s : Assoc) → find j (without k s) ≡ (if beq k j then none else find j s)
unfolding find without
find-without k j [] = ground arith
find-without k j ((i, v) ∷ s) =
    ground (arith, find-without k j s, beq_iff i k, beq_iff i j, beq_iff k j)

strip-append : (p k : Bytes) → strip p (p ++ k) ≡ some k
unfolding strip
strip-append [] k = refl
strip-append (b ∷ p) k = rw ((==_iff b b).1 refl) (strip-append p k)

strip-eq-some : (p k j : Bytes) → strip p k ≡ some j → k ≡ p ++ j
unfolding strip
strip-eq-some [] k j h = ground arith
strip-eq-some (b ∷ p) [] j h = cc
strip-eq-some (b ∷ p) (c ∷ k) j h = ground (arith, strip-eq-some p k j)

beq-append : (p j k : Bytes) → beq (p ++ j) (p ++ k) ≡ beq j k
unfolding beq
beq-append [] j k = refl
beq-append (b ∷ p) j k = rw ((==_iff b b).1 refl) (beq-append p j k)

pub find-below : (p k : Bytes) (s : Assoc) → find k (below p s) ≡ find (p ++ k) s
unfolding find below
find-below p k [] = refl
find-below p k ((i, v) ∷ s) = elim (Option-cases (strip p i)) [
  | inl e ↦
      rw (e, below)
        (elim (Bool-cases (beq i (p ++ k))) [
          | inl t ↦ cc (strip-append p k, (beq_iff i (p ++ k)).0 t)
          | inr f ↦ rw f (find-below p k s)
        ])
  | inr (j, e) ↦
      let same : beq i (p ++ k) ≡ beq j k =
        ap (λ t. beq t (p ++ k)) (strip-eq-some p i j e) ∙ beq-append p j k in
      rw (e, below, same) (ground (arith, find-without j k (below p s), find-below p k s))
]

without-IsUnique : (k : Bytes) (s : Assoc) → IsUnique s → IsUnique (without k s)
unfolding without find
without-IsUnique k [] h = tt
without-IsUnique k ((j, v) ∷ s) (h, hs) =
    ground (arith, find-without k j s, without-IsUnique k s hs)

pub below-IsUnique : (p : Bytes) (s : Assoc) → IsUnique (below p s)
unfolding below
below-IsUnique p [] = tt
below-IsUnique p ((k, v) ∷ s) = elim (Option-cases (strip p k)) [
  | inl e ↦ rw (e, below) (below-IsUnique p s)
  | inr (j, e) ↦
      rw (e, below)
        (
          find-without j j (below p s) ∙ rw (beq_refl j),
          without-IsUnique j (below p s) (below-IsUnique p s),
        )
]

unfoldable pub try_insert : Assoc → Option Bytes → Option Bytes → Option Assoc
try_insert s (some (b ∷ k)) (some v) = some (insert (b ∷ k) v s)
try_insert s _ _ = none

unfoldable pub try_without : Assoc → Option Bytes → Option Assoc
try_without s (some (b ∷ k)) = some (without (b ∷ k) s)
try_without s _ = none

pub try_insert-nil_value : (s : Assoc) (k : Option Bytes) → try_insert s k none ≡ none
unfolding try_insert
try_insert-nil_value s none = refl
try_insert-nil_value s (some []) = refl
try_insert-nil_value s (some (b ∷ k)) = refl

pub find-insert :
    (s : Assoc) (k j v : Bytes) → find j (insert k v s) ≡ (if beq k j then some v else find j s)
unfolding find insert
find-insert s k j v = refl

pub try_insert-some :
    (s : Assoc) (b : ℕ) (k v : Bytes)
    → try_insert s (some (b ∷ k)) (some v) ≡ some (insert (b ∷ k) v s)
unfolding try_insert
try_insert-some s b k v = refl

pub try_insert-no_key :
    (s : Assoc) (v : Option Bytes)
    → (try_insert s none v ≡ none) × (try_insert s (some []) v ≡ none)
unfolding try_insert
try_insert-no_key s v = (refl, refl)

pub try_without_cases :
    (s : Assoc) (b : ℕ) (k : Bytes)
    → (try_without s (some (b ∷ k)) ≡ some (without (b ∷ k) s))
      × (try_without s none ≡ none)
      × (try_without s (some []) ≡ none)
unfolding try_without
try_without_cases s b k = (refl, refl, refl)

abbrev pub assoc_store : KvStore
assoc_store = record {
  Store = Assoc;
  get = λ s k. find k s;
  set = λ s k v. insert k v s;
  delete = λ s k. without k s;
  get_in = λ p s k. find (p ++ k) s;
  set_in = λ p s k v. insert (p ++ k) v s;
  delete_in = λ p s k. without (p ++ k) s;
  entries_in = below;
  try_set = try_insert;
  try_delete = try_without;
  get-set = λ s b k j v. find-insert s (b ∷ k) j v;
  get-delete = λ s b k j. find-without (b ∷ k) j s;
  get_in_lem = λ p s k. refl;
  set_in_lem = λ p s k v. refl;
  delete_in_lem = λ p s k. refl;
  find-entries_in = λ p s k. find-below p k s;
  entries_in-IsUnique = below-IsUnique;
  try_set-some = try_insert-some;
  try_set-nil_value = try_insert-nil_value;
  try_set-nil_key = λ s v. (try_insert-no_key s v).0;
  try_set-empty_key = λ s v. (try_insert-no_key s v).1;
  try_delete-some = λ s b k. (try_without_cases s b k).0;
  try_delete-nil_key = λ s. (try_without_cases s 0 []).1;
  try_delete-empty_key = λ s. (try_without_cases s 0 []).2;
}
