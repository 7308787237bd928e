-- ===== src/Keeper/Entries.antt =====
-- What the guess and wordle entries share: the list that GetAllGuess and GetAllWordle make of the entries
-- below a prefix, and the entry that a key finds.
use wordle.Prelude.{
  ℕ, ◌≡◌, inl, inr, refl, sym, ap, ◌∙◌, arith, false, Bool-cases, Option, none, some, Bytes, List,
  [], ◌∷◌, ◌++◌, beq, beq_iff, beq_refl, beq-append, beq_of_iff, if◌then◌else◌, All,
}
use wordle.Exec.{Reply, ok, must, cons_reply, some_reply}
use wordle.Types.Keys.{guess_key, guess_key_injective}
use wordle.Env.{Codec}
use wordle.Env.Kv.{KvStore, find, IsUnique}

-- What holds of every entry that a key finds holds of every entry of a list with distinct keys.
abbrev AllEntries : (Bytes → Bytes → Type 0) → List (Bytes × Bytes) → Type 0
AllEntries P [] = Unit {0}
AllEntries P ((k, v) ∷ entries) = P k v × AllEntries P entries

find-AllEntries :
    (P : Bytes → Bytes → Type 0) (entries : List (Bytes × Bytes))
    → IsUnique entries
    → ((k v : Bytes) → find k entries ≡ some v → P k v)
    → AllEntries P entries
unfolding find
find-AllEntries P [] u h = tt
find-AllEntries P ((k, v) ∷ entries) (n, u) h =
    (h k v (rw (beq_refl k)), find-AllEntries P entries u (λ j w e. h j w (other j w e)))
  where
    other : (j w : Bytes) → find j entries ≡ some w → find j ((k, v) ∷ entries) ≡ some w
    other j w e = ground (arith, n, e, beq_iff k j)

module _ (kv : KvStore) (b : ℕ) (p : Bytes) where
  open kv use {Store, get, set, delete, get-set, get-delete}

  -- What holds of every entry below the prefix.
  abbrev pub Keeps : (Bytes → Bytes → Type 0) → Store → Type 0
  Keeps P s = (k bz : Bytes) → get s ((b ∷ p) ++ k) ≡ some bz → P k bz

  pub set-Keeps :
      (P : Bytes → Bytes → Type 0) (key bz : Bytes) (s : Store)
      → P key bz
      → Keeps P s
      → Keeps P (set s ((b ∷ p) ++ key) bz)
  set-Keeps P key bz s new kept k v e =
      let stored : get (set s ((b ∷ p) ++ key) bz) ((b ∷ p) ++ k)
          ≡ (if beq key k then some bz else get s ((b ∷ p) ++ k)) =
        get-set s _ _ ((b ∷ p) ++ k) bz
        ∙ ap (λ t. if t then some bz else get s ((b ∷ p) ++ k)) (beq-append (b ∷ p) key k) in
      elim (Bool-cases (beq key k)) [
        | inl t ↦
            let same : bz ≡ v = ground (arith, stored, e, t) in
            rw (same, (beq_iff key k).0 t) at new
        | inr n ↦ kept k v (ground (arith, stored, e, n))
      ]

  pub delete-Keeps :
      (P : Bytes → Bytes → Type 0) (c : ℕ) (j : Bytes) (s : Store)
      → Keeps P s
      → Keeps P (delete s (c ∷ j))
  delete-Keeps P c j s kept k v e = kept k v (ground (arith, get-delete s c j ((b ∷ p) ++ k), e))

  -- A write outside of the prefix.
  pub set_elsewhere-Keeps :
      (P : Bytes → Bytes → Type 0) (c : ℕ) (j bz : Bytes) (s : Store)
      → ((k : Bytes) → beq (c ∷ j) ((b ∷ p) ++ k) ≡ false)
      → Keeps P s
      → Keeps P (set s (c ∷ j) bz)
  set_elsewhere-Keeps P c j bz s far kept k v e = kept k v (
      sym (
        get-set s c j ((b ∷ p) ++ k) bz
        ∙ ap (λ t. if t then some bz else get s ((b ∷ p) ++ k)) (far k))
      ∙ e)

pub ok_injective : {A : Type 0} {a b : A} → ◌≡◌ {A = Reply A} (ok a) (ok b) → a ≡ b
ok_injective e = cc

module _ {A : Type 0} (index : A → Bytes) where
  -- The first element of a list with an index.
  unfoldable pub first_of : Bytes → List A → Option A
  first_of i [] = none
  first_of i (a ∷ more) = let rest = first_of i more in if beq (index a) i then some a else rest

  -- Each index stands once.
  abbrev pub IsDistinct : List A → Type 0
  IsDistinct [] = Unit {0}
  IsDistinct (a ∷ more) = (first_of (index a) more ≡ none) × IsDistinct more

  pub key_of :
      (a : A) (k i : Bytes) → k ≡ guess_key (index a) → beq k (guess_key i) ≡ beq (index a) i
  key_of a k i e =
      ap (λ t. beq t (guess_key i)) e
      ∙ beq_of_iff _ _ (index a) i (guess_key_injective (index a) i) (ap guess_key)

  module _ {IsWire : A → Type 0} (codec : Codec A IsWire) where
    abbrev pub read_entry : Option Bytes → Reply (Option A)
    read_entry none = ok none
    read_entry (some bz) = some_reply (must (codec.unmarshal bz))

    unfoldable pub read_entries : List (Bytes × Bytes) → Reply (List A)
    read_entries [] = ok []
    read_entries ((k, bz) ∷ entries) = cons_reply (must (codec.unmarshal bz)) (read_entries entries)

    -- The bytes of an entry are those of an element that stands under its own key.
    abbrev pub IsEntry : Bytes → Bytes → Type 0
    IsEntry k bz = (a : A) × (codec.unmarshal bz ≡ ok a) × (k ≡ guess_key (index a))

    listed :
        (entries : List (Bytes × Bytes))
        → AllEntries IsEntry entries
        → (found : List A) × (read_entries entries ≡ ok found)
          × ((i : Bytes) → read_entry (find (guess_key i) entries) ≡ ok (first_of i found))
    unfolding read_entries find first_of
    listed [] h = ([], refl, λ i. refl)
    listed ((k, bz) ∷ entries) ((a, u, e), h) =
        let (found, d, f) = listed entries h in
        (
          a ∷ found,
          rw (u, d),
          λ i.
              rw (key_of a k i e)
                (elim (Bool-cases (beq (index a) i)) [ inl t ↦ rw (t, u) | inr n ↦ rw n (f i) ]),
        )

    -- Entries with distinct keys are read as elements with distinct indices.
    read-IsDistinct :
        (entries : List (Bytes × Bytes)) (found : List A)
        → IsUnique entries
        → AllEntries IsEntry entries
        → read_entries entries ≡ ok found
        → IsDistinct found
    unfolding read_entries
    read-IsDistinct [] found u h e = rw (sym (ok_injective e)) tt
    read-IsDistinct ((k, bz) ∷ entries) found (n, us) ((a, u, key), h) e =
        let (more, d, f) = listed entries h in
        let full : read_entries ((k, bz) ∷ entries) ≡ ok (a ∷ more) = rw (u, d) refl in
        let absent : first_of (index a) more ≡ none =
          ok_injective
            (sym (f (index a)) ∙ ap read_entry (ap (λ x. find x entries) (sym key) ∙ n)) in
        rw (ok_injective (sym e ∙ full)) (absent, read-IsDistinct entries more us h d)

    read-All :
        (P : A → Type 0) (entries : List (Bytes × Bytes))
        → AllEntries (λ k bz. (a : A) × (codec.unmarshal bz ≡ ok a) × P a) entries
        → (found : List A) × (read_entries entries ≡ ok found) × All P found
    unfolding read_entries
    read-All P [] h = ([], refl, tt)
    read-All P ((k, bz) ∷ entries) ((a, u, pa), h) =
        let (found, e, ps) = read-All P entries h in (a ∷ found, rw (u, e), (pa, ps))

    module _ (kv : KvStore) (b : ℕ) (p : Bytes) where
      open kv use {Store, get, set, entries_in, find-entries_in, entries_in-IsUnique}

      -- A store whose entries below the prefix can all be read, each under its own key.
      abbrev pub IsKept : Store → Type 0
      IsKept = Keeps kv b p IsEntry

      -- The list of the entries is there, and each index finds its first element.
      pub entries_lem :
          (s : Store)
          → IsKept s
          → (found : List A) × (read_entries (entries_in (b ∷ p) s) ≡ ok found)
            × ((i : Bytes) → read_entry (get s ((b ∷ p) ++ guess_key i)) ≡ ok (first_of i found))
      entries_lem s kept =
          let entries = entries_in (b ∷ p) s in
          let (found, d, f) = listed entries (
            find-AllEntries IsEntry entries (entries_in-IsUnique (b ∷ p) s)
              (λ k v e. kept k v (sym (find-entries_in (b ∷ p) s k) ∙ e))) in
          (found, d, λ i. ap read_entry (sym (find-entries_in (b ∷ p) s (guess_key i))) ∙ f i)

      pub set-IsKept :
          (a : A) (bz : Bytes) (s : Store)
          → codec.unmarshal bz ≡ ok a
          → IsKept s
          → IsKept (set s ((b ∷ p) ++ guess_key (index a)) bz)
      set-IsKept a bz s u kept =
          set-Keeps kv b p IsEntry (guess_key (index a)) bz s (a, u, refl) kept

      -- What holds of every entry holds of every element of the list.
      pub entries-All :
          (P : A → Type 0) (s : Store) (found : List A)
          → Keeps kv b p (λ k bz. (a : A) × (codec.unmarshal bz ≡ ok a) × P a) s
          → read_entries (entries_in (b ∷ p) s) ≡ ok found
          → All P found
      entries-All P s found kept e =
          let entries = entries_in (b ∷ p) s in
          let (more, d, ps) = read-All P entries (
            find-AllEntries _ entries (entries_in-IsUnique (b ∷ p) s)
              (λ k v h. kept k v (sym (find-entries_in (b ∷ p) s k) ∙ h))) in
          rw (ok_injective (sym d ∙ e)) at ps

      pub entries-IsDistinct :
          (s : Store) (found : List A)
          → IsKept s
          → read_entries (entries_in (b ∷ p) s) ≡ ok found
          → IsDistinct found
      entries-IsDistinct s found kept e =
          let entries = entries_in (b ∷ p) s in
          read-IsDistinct entries found (entries_in-IsUnique (b ∷ p) s)
            (find-AllEntries IsEntry entries (entries_in-IsUnique (b ∷ p) s)
              (λ k v h. kept k v (sym (find-entries_in (b ∷ p) s k) ∙ h)))
            e
