-- ===== src/Env/Kv.antt =====
-- The module's KV store, as `runtime.KVStoreAdapter` and `prefix.NewStore` present it. A prefix store
-- puts its prefix in front of each key, and its iterator visits each entry below the prefix once.
use wordle.Prelude.{ℕ, ◌≡◌, Option, none, some, Bytes, List, [], ◌∷◌, ◌++◌, beq, if◌then◌else◌}

-- The value of the first entry with a key.
unfoldable pub find : Bytes → List (Bytes × Bytes) → Option Bytes
find k [] = none
find k ((j, v) ∷ entries) = if beq j k then some v else find k entries

-- Each key stands once.
abbrev pub IsUnique : List (Bytes × Bytes) → Type 0
IsUnique [] = Unit {0}
IsUnique ((k, v) ∷ entries) = (find k entries ≡ none) × IsUnique entries

pub record KvStore : Type 1 where
  pub Store : Type 0
  pub get : Store → Bytes → Option Bytes
  pub set : Store → Bytes → Bytes → Store
  pub delete : Store → Bytes → Store
  pub get_in : Bytes → Store → Bytes → Option Bytes
  pub set_in : Bytes → Store → Bytes → Bytes → Store
  pub delete_in : Bytes → Store → Bytes → Store
  -- The entries of a prefix store in the order of its iterator, without the prefix.
  pub entries_in : Bytes → Store → List (Bytes × Bytes)
  -- Set and Delete with what Go may pass: a nil value or an empty key panics.
  pub try_set : Store → Option Bytes → Option Bytes → Option Store
  pub try_delete : Store → Option Bytes → Option Store
  pub get-set :
      (s : Store) (b : ℕ) (k j v : Bytes)
      → get (set s (b ∷ k) v) j ≡ (if beq (b ∷ k) j then some v else get s j)
  pub get-delete :
      (s : Store) (b : ℕ) (k j : Bytes)
      → get (delete s (b ∷ k)) j ≡ (if beq (b ∷ k) j then none else get s j)
  pub get_in_lem : (p : Bytes) (s : Store) (k : Bytes) → get_in p s k ≡ get s (p ++ k)
  pub set_in_lem : (p : Bytes) (s : Store) (k v : Bytes) → set_in p s k v ≡ set s (p ++ k) v
  pub delete_in_lem : (p : Bytes) (s : Store) (k : Bytes) → delete_in p s k ≡ delete s (p ++ k)
  pub find-entries_in :
      (p : Bytes) (s : Store) (k : Bytes) → find k (entries_in p s) ≡ get s (p ++ k)
  pub entries_in-IsUnique : (p : Bytes) (s : Store) → IsUnique (entries_in p s)
  pub try_set-some :
      (s : Store) (b : ℕ) (k v : Bytes) → try_set s (some (b ∷ k)) (some v) ≡ some (set s (b ∷ k) v)
  pub try_set-nil_value : (s : Store) (k : Option Bytes) → try_set s k none ≡ none
  pub try_set-nil_key : (s : Store) (v : Option Bytes) → try_set s none v ≡ none
  pub try_set-empty_key : (s : Store) (v : Option Bytes) → try_set s (some []) v ≡ none
  pub try_delete-some :
      (s : Store) (b : ℕ) (k : Bytes) → try_delete s (some (b ∷ k)) ≡ some (delete s (b ∷ k))
  pub try_delete-nil_key : (s : Store) → try_delete s none ≡ none
  pub try_delete-empty_key : (s : Store) → try_delete s (some []) ≡ none
