-- ===== src/Keeper/Wordles/Laws.antt =====
-- Reading the wordle entries back after a write, and what a write leaves alone.
use wordle.Prelude.{◌≡◌, ◌∙◌, ap, arith, Option, none, some, Bytes, ◌++◌, beq}
use wordle.Prelude.{if◌then◌else◌}
use wordle.Exec.{Reply, ok}
use wordle.Types.{Wordle, IsWireWordle}
use wordle.Types.Keys.{wordle_key, wordle_key_prefix, beq-wordle_key}
use wordle.Env.{Env}
use wordle.Keeper.Wordles.{set_wordle, get_wordle, decode_wordle, remove_wordle}

-- The whole key of an entry, and what of it follows the first byte.
abbrev pub wordle_path : Bytes → Bytes
wordle_path index = wordle_key_prefix ++ wordle_key index

module _ (env : Env) where
  open env use {
    Store, get, set, delete, get-set, get-delete, get_in_lem, set_in_lem, delete_in_lem,
    wordle_codec,
  }

  pub get_wordle_lem :
      (index : Bytes) (s : Store)
      → get_wordle env index s ≡ (decode_wordle env (get s (wordle_path index)), s)
  unfolding get_wordle
  get_wordle_lem index s = rw (get_in_lem wordle_key_prefix s (wordle_key index))

  pub set_wordle_lem :
      (wordle : Wordle) (s : Store)
      → IsWireWordle wordle
      → (bz : Bytes) × (set_wordle env wordle s ≡ (ok tt, set s (wordle_path wordle.index) bz))
        × (decode_wordle env (some bz) ≡ ok (some wordle))
  unfolding set_wordle decode_wordle
  set_wordle_lem wordle s w =
      let (bz, m, u) = wordle_codec.read_back wordle w in
      (bz, rw (m, set_in_lem wordle_key_prefix s (wordle_key wordle.index) bz), rw u)

  pub remove_wordle_lem :
      (index : Bytes) (s : Store)
      → remove_wordle env index s ≡ (ok tt, delete s (wordle_path index))
  unfolding remove_wordle
  remove_wordle_lem index s = rw (delete_in_lem wordle_key_prefix s (wordle_key index))

  -- The entry that a store holds under an index.
  abbrev pub wordle_at : Store → Bytes → Reply (Option Wordle)
  wordle_at s index = (get_wordle env index s).0

  pub wordle_at_lem :
      (s : Store) (index : Bytes)
      → wordle_at s index ≡ decode_wordle env (get s (wordle_path index))
  wordle_at_lem s index = ap (λ t. t.0) (get_wordle_lem index s)

  pub get-set_wordle :
      (s : Store) (i j v : Bytes)
      → get (set s (wordle_path i) v) (wordle_path j)
        ≡ (if beq i j then some v else get s (wordle_path j))
  get-set_wordle s i j v =
      get-set s _ _ (wordle_path j) v
      ∙ ap (λ b. if b then some v else get s (wordle_path j)) (beq-wordle_key i j)

  pub get-delete_wordle :
      (s : Store) (i j : Bytes)
      → get (delete s (wordle_path i)) (wordle_path j)
        ≡ (if beq i j then none else get s (wordle_path j))
  get-delete_wordle s i j =
      get-delete s _ _ (wordle_path j)
      ∙ ap (λ b. if b then none else get s (wordle_path j)) (beq-wordle_key i j)

  -- After SetWordle of an entry with texts of fewer than 2 ^ 32 bytes, GetWordle finds it under its index,
  -- and under any other what was there.
  pub get_wordle-set_wordle :
      (wordle : Wordle) (s : Store) (index : Bytes)
      → IsWireWordle wordle
      → wordle_at (set_wordle env wordle s).1 index
        ≡ (if beq wordle.index index then ok (some wordle) else wordle_at s index)
  get_wordle-set_wordle wordle s index w =
      let (bz, e, d) = set_wordle_lem wordle s w in
      rw
        (
          e,
          wordle_at_lem (set s (wordle_path wordle.index) bz) index,
          wordle_at_lem s index,
          get-set_wordle s wordle.index index bz,
        )
        (ground (arith, d))

  -- After RemoveWordle, GetWordle finds nothing under the index, and under any other what was there.
  pub get_wordle-remove_wordle :
      (s : Store) (i index : Bytes)
      → wordle_at (remove_wordle env i s).1 index
        ≡ (if beq i index then ok none else wordle_at s index)
  unfolding decode_wordle
  get_wordle-remove_wordle s i index =
      rw
        (
          remove_wordle_lem i s,
          wordle_at_lem (delete s (wordle_path i)) index,
          wordle_at_lem s index,
          get-delete_wordle s i index,
        )
        (ground arith)
