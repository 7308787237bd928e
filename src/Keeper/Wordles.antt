-- ===== src/Keeper/Wordles.antt =====
-- x/wordle/keeper/wordle.go: the wordle entries of the store.
pub mod Laws
pub mod Listing
use wordle.Prelude.{◌≡◌, refl, Bool, true, false, Option, none, some, Bytes, List, [], ◌∷◌, map}
use wordle.Exec.{
  Reply, ok, err, panic, Exec, pure, must, lift, gets, modify, cons_reply, some_reply, ◌>>=◌, ◌>>◌,
}
use wordle.Types.{Wordle}
use wordle.Types.Keys.{wordle_key, wordle_key_prefix}
use wordle.Env.{Env}

module _ (env : Env) where
  open env use {Store, get_in, set_in, delete_in, entries_in, wordle_codec}

  -- SetWordle: MustMarshal panics on an error.
  unfoldable pub set_wordle : Wordle → Exec Store (Unit {0})
  set_wordle wordle = do
    bz ← lift (must (wordle_codec.marshal wordle))
    modify (λ s. set_in wordle_key_prefix s (wordle_key wordle.index) bz)

  -- What GetWordle makes of the bytes under a key; `none` for (val, false).
  unfoldable pub decode_wordle : Option Bytes → Reply (Option Wordle)
  decode_wordle none = ok none
  decode_wordle (some bz) = some_reply (must (wordle_codec.unmarshal bz))

  unfoldable pub get_wordle : Bytes → Exec Store (Option Wordle)
  get_wordle index = do
    b ← gets (λ s. get_in wordle_key_prefix s (wordle_key index))
    lift (decode_wordle b)

  unfoldable pub remove_wordle : Bytes → Exec Store (Unit {0})
  remove_wordle index = modify (λ s. delete_in wordle_key_prefix s (wordle_key index))

  -- The loop of GetAllWordle over what the iterator has left.
  unfoldable pub decode_wordles : List (Bytes × Bytes) → Reply (List Wordle)
  decode_wordles [] = ok []
  decode_wordles ((k, bz) ∷ entries) =
      cons_reply (must (wordle_codec.unmarshal bz)) (decode_wordles entries)

  unfoldable pub get_all_wordle : Exec Store (List Wordle)
  unfolding decode_wordles
  get_all_wordle = do
    entries ← gets (λ s. entries_in wordle_key_prefix s)
    lift (decode_wordles entries)
