-- ===== src/Keeper/Consensus/Rollback.antt =====
-- What RollbackState makes of the tracked writes of a block.
use wordle.Prelude.{
  sym, not, Bool, ◌⊎◌, ℕ, ◌≡◌, refl, ap, ◌∙◌, arith, true, false, Option, none, some, Bytes, List,
  [], ◌∷◌, ◌++◌,
}
use wordle.Prelude.{beq, beq_iff, Bool-cases, inl, inr, if◌then◌else◌}
use wordle.Prelude.Int.{ℤ}
use wordle.Exec.{ok, continue}
use wordle.Types.{BlockState, StateChange}
use wordle.Types.Keys.{block_state_key}
use wordle.Env.{Env}
use wordle.Keeper.Tracking.{get_block_state}
use wordle.Keeper.Tracking.Laws.{block_state_at, ok_injective}
use wordle.Keeper.Consensus.{undo, undo_all, or_crash, rollback_state}

abbrev names : Bytes → StateChange → Bool
names j c = elim c.key [ none ↦ false | some k ↦ beq k j ]

-- The first of the changes of a key is that it was set.
abbrev pub set_first : Bytes → List StateChange → Bool
set_first j [] = false
set_first j (c ∷ cs) = if names j c then not c.is_deleted else set_first j cs

-- What a change leaves of a key when it is undone, and what all of them leave, the last one first.
abbrev undone : StateChange → Bytes → Option Bytes → Option Bytes
undone c j x = if names j c then (if c.is_deleted then c.value else none) else x

abbrev left_by : List StateChange → Bytes → Option Bytes → Option Bytes
left_by [] j x = x
left_by (c ∷ cs) j x = undone c j (left_by cs j x)

left_by-append :
    (cs : List StateChange) (c : StateChange) (j : Bytes) (x : Option Bytes)
    → left_by (cs ++ c ∷ []) j x ≡ left_by cs j (undone c j x)
left_by-append [] c j x = refl
left_by-append (d ∷ cs) c j x = ap (undone d j) (left_by-append cs c j x)

-- Changes that do not name a key leave it alone; others leave the same whatever it holds.
abbrev Untouched : List StateChange → Bytes → Type 0
Untouched cs j =
    ((x : Option Bytes) → left_by cs j x ≡ x)
    × ((ds : List StateChange) → set_first j (cs ++ ds) ≡ set_first j ds)

abbrev Touched : List StateChange → Bytes → Type 0
Touched cs j =
    ((x y : Option Bytes) → left_by cs j x ≡ left_by cs j y)
    × ((ds : List StateChange) → set_first j (cs ++ ds) ≡ set_first j cs)

touches : (cs : List StateChange) (j : Bytes) → Untouched cs j ⊎ Touched cs j
touches [] j = inl ((λ x. refl), (λ ds. refl))
touches (c ∷ cs) j = elim (Bool-cases (names j c)) [
  | inl t ↦ inr ((λ x y. rw t refl), (λ ds. rw t refl))
  | inr f ↦ elim (touches cs j) [
    | inl (a, b) ↦ inl ((λ x. rw f (a x)), (λ ds. rw f (b ds)))
    | inr (a, b) ↦ inr ((λ x y. rw f (a x y)), (λ ds. rw f (b ds)))
  ]
]

-- A change that is no set of the key does not make it one that was set first.
set_first-append :
    (cs : List StateChange) (c : StateChange) (j : Bytes)
    → set_first j (c ∷ []) ≡ false
    → set_first j (cs ++ c ∷ []) ≡ set_first j cs
set_first-append [] c j e = e
set_first-append (d ∷ cs) c j e = elim (Bool-cases (names j d)) [
  | inl t ↦ rw t refl
  | inr f ↦ rw f (set_first-append cs c j e)
]

module _ (env : Env) (h : ℤ) where
  open env use {Store, get, set, delete, get-set, get-delete, try_set-some, try_delete-some}

  -- `Tracked s changes t`: from `s` the block has come to `t`, and `changes` are its writes. A key was
  -- set, whether or not it was there, or a key was deleted with its value on record; saving the block
  -- state itself is no change.
  pub data Tracked (s : Store) : List StateChange → Store → Type 0 where
    start : Tracked s [] s
    save :
        {changes : List StateChange} {t : Store} (bz : Bytes)
        → Tracked s changes t
        → Tracked s changes (set t (block_state_key h) bz)
    insert :
        {changes : List StateChange} {t : Store} (b : ℕ) (k v : Bytes) (w : Option Bytes)
        → Tracked s changes t
        → Tracked s
            (changes ++ record { key = some (b ∷ k); value = w; is_deleted = false } ∷ [])
            (set t (b ∷ k) v)
    remove :
        {changes : List StateChange} {t : Store} (b : ℕ) (k v : Bytes)
        → Tracked s changes t
        → get t (b ∷ k) ≡ some v
        → Tracked s
            (changes ++ record { key = some (b ∷ k); value = some v; is_deleted = true } ∷ [])
            (delete t (b ∷ k))

  undo_all-append :
      (changes : List StateChange) (c : StateChange) (u t : Store)
      → undo env c u ≡ (ok tt, t)
      → undo_all env (changes ++ c ∷ []) u ≡ undo_all env changes t
  unfolding undo_all
  undo_all-append [] c u t e = e
  undo_all-append (x ∷ changes) c u t e =
      ap (λ p. continue p.0 (λ _. undo env x) p.1) (undo_all-append changes c u t e)

  undo_insert :
      (b : ℕ) (k : Bytes) (w : Option Bytes) (u : Store)
      → undo env (record { key = some (b ∷ k); value = w; is_deleted = false }) u
        ≡ (ok tt, delete u (b ∷ k))
  unfolding undo or_crash
  undo_insert b k w u = rw (try_delete-some u b k, or_crash)

  undo_remove :
      (b : ℕ) (k v : Bytes) (u : Store)
      → undo env (record { key = some (b ∷ k); value = some v; is_deleted = true }) u
        ≡ (ok tt, set u (b ∷ k) v)
  unfolding undo or_crash
  undo_remove b k v u = rw (try_set-some u b k v, or_crash)

  -- Undoing the changes of a block succeeds on any store, and leaves of each key what they say.
  undo_all-left_by :
      {s : Store} {changes : List StateChange} {t : Store}
      → Tracked s changes t
      → (u : Store)
      → (s' : Store) × (undo_all env changes u ≡ (ok tt, s'))
        × ((j : Bytes) → get s' j ≡ left_by changes j (get u j))
  undo_all-left_by start u = (u, unfold undo_all in refl, λ j. refl)
  undo_all-left_by (save bz d) u = undo_all-left_by d u
  undo_all-left_by (insert {changes = cs} b k v w d) u =
      let (s', r, g) = undo_all-left_by d (delete u (b ∷ k)) in
      (
        s',
        undo_all-append cs _ u (delete u (b ∷ k)) (undo_insert b k w u) ∙ r,
        λ j. g j ∙ ap (left_by cs j) (get-delete u b k j) ∙ sym (left_by-append cs _ j (get u j)),
      )
  undo_all-left_by (remove {changes = cs} b k v d present) u =
      let (s', r, g) = undo_all-left_by d (set u (b ∷ k) v) in
      (
        s',
        undo_all-append cs _ u (set u (b ∷ k) v) (undo_remove b k v u) ∙ r,
        λ j. g j ∙ ap (left_by cs j) (get-set u b k j v) ∙ sym (left_by-append cs _ j (get u j)),
      )

  -- Undone from the end of the block, the changes leave a key that was set first absent, and any other
  -- as it was.
  left_by-Tracked :
      {s : Store} {changes : List StateChange} {t : Store}
      → Tracked s changes t
      → (j : Bytes) → beq (block_state_key h) j ≡ false
      → left_by changes j (get t j) ≡ (if set_first j changes then none else get s j)
  left_by-Tracked start j e = refl
  left_by-Tracked (save {changes = cs} {t = t} bz d) j e =
      ap (left_by cs j) (get-set t _ _ j bz ∙ rw e) ∙ left_by-Tracked d j e
  left_by-Tracked (insert {changes = cs} {t = t} b k v w d) j e =
      let before = left_by-Tracked d j e in
      let last : StateChange = record { key = some (b ∷ k); value = w; is_deleted = false } in
      left_by-append cs last j (get (set t (b ∷ k) v) j) ∙ elim (Bool-cases (beq (b ∷ k) j)) [
        | inl i ↦ elim (touches cs j) [
          | inl (a, c) ↦ rw (c (last ∷ []), i) (a none)
          | inr (a, c) ↦ rw (c (last ∷ []), i) (a none (get t j) ∙ before)
        ]
        | inr f ↦ rw (set_first-append cs last j (rw f refl), f, get-set t b k j v, f) before
      ]
  left_by-Tracked (remove {changes = cs} {t = t} b k v d present) j e =
      let before = left_by-Tracked d j e in
      let last : StateChange = record { key = some (b ∷ k); value = some v; is_deleted = true } in
      left_by-append cs last j (get (delete t (b ∷ k)) j) ∙ elim (Bool-cases (beq (b ∷ k) j)) [
        | inl i ↦
            let here : some v ≡ get t j = sym present ∙ ap (get t) ((beq_iff (b ∷ k) j).0 i) in
            rw (set_first-append cs last j (rw i refl), i) (ap (left_by cs j) here ∙ before)
        | inr f ↦ rw (set_first-append cs last j (rw f refl), f, get-delete t b k j, f) before
      ]

  -- What a store holds under the keys other than that of the block state.
  abbrev pub besides : Store → Bytes → Option Bytes
  besides s j = if beq (block_state_key h) j then none else get s j

  -- At a height whose block state lists the writes of the block since `s`, each a set or a deletion with
  -- the old value on record, RollbackState returns no error. Every key but that of the block state then
  -- holds what it held in `s`, except that a key whose first write in the block was a set is absent,
  -- even where it held a value in `s`.
  pub rollback_restores :
      (s t : Store) (st : BlockState)
      → Tracked s st.changes t
      → block_state_at env t h ≡ ok (st, ok tt)
      → (s' : Store) × (rollback_state env h t ≡ (ok tt, s'))
        × ((j : Bytes) → besides s' j ≡ (if set_first j st.changes then none else besides s j))
  unfolding rollback_state get_block_state
  rollback_restores s t st d e =
      let (s', r, g) = undo_all-left_by d t in
      (
        s',
        rw (ok_injective e) r,
        λ j. elim (Bool-cases (beq (block_state_key h) j)) [
          | inl i ↦ rw i (ground arith)
          | inr f ↦ rw f (g j ∙ left_by-Tracked d j f)
        ],
      )
