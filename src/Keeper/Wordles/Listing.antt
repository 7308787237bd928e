-- ===== src/Keeper/Wordles/Listing.antt =====
-- GetAllWordle: a store whose wordle entries are in order, and what the list of them holds.
use wordle.Prelude.{◌≡◌, refl, ap, ◌∙◌, Option, none, some, Bytes, List, codes, [], ◌∷◌}
use wordle.Exec.{ok, must, cons_reply}
use wordle.Types.{Wordle, IsWireWordle}
use wordle.Env.{Env}
use wordle.Keeper.Entries
use wordle.Keeper.Entries.{first_of, read_entry, read_entries, entries_lem, set-IsKept}
use wordle.Keeper.Wordles.{set_wordle, decode_wordle, decode_wordles, get_all_wordle}
use wordle.Keeper.Wordles.Laws.{wordle_at, wordle_at_lem}
use wordle.Types.Keys.{wordle_key, wordle_key_prefix}

-- The key prefix behind its first byte.
abbrev pub prefix_rest : Bytes
prefix_rest = codes "ordle/value/"

abbrev pub wordle_index : Wordle → Bytes
wordle_index g = g.index

module _ (env : Env) where
  open env use {Store, kv, entries_in, set_in_lem, wordle_codec}

  -- A store whose wordle entries can all be read, each under its own key.
  abbrev pub IsKept : Store → Type 0
  IsKept = Entries.IsKept wordle_index wordle_codec kv 87 prefix_rest

  pub decode_wordle_lem :
      (o : Option Bytes) → decode_wordle env o ≡ read_entry wordle_index wordle_codec o
  unfolding decode_wordle
  decode_wordle_lem none = refl
  decode_wordle_lem (some bz) = refl

  pub decode_wordles_lem :
      (entries : List (Bytes × Bytes))
      → decode_wordles env entries ≡ read_entries wordle_index wordle_codec entries
  unfolding decode_wordles read_entries
  decode_wordles_lem [] = refl
  decode_wordles_lem ((k, bz) ∷ entries) =
      ap (cons_reply (must (wordle_codec.unmarshal bz))) (decode_wordles_lem entries)

  -- GetAllWordle of such a store succeeds, and GetWordle of an index finds the first wordle of the list
  -- with that index.
  pub get_all_wordle-get_wordle :
      (s : Store)
      → IsKept s
      → (ws : List Wordle) × (get_all_wordle env s ≡ (ok ws, s))
        × ((i : Bytes) → wordle_at env s i ≡ ok (first_of wordle_index i ws))
  unfolding get_all_wordle
  get_all_wordle-get_wordle s kept =
      let (ws, d, f) = entries_lem wordle_index wordle_codec kv 87 prefix_rest s kept in
      (
        ws,
        rw (decode_wordles_lem (entries_in wordle_key_prefix s), d),
        λ i. wordle_at_lem env s i ∙ decode_wordle_lem _ ∙ f i,
      )

  -- SetWordle keeps the entries in order.
  pub set_wordle-IsKept :
      (g : Wordle) (s : Store) → IsWireWordle g → IsKept s → IsKept (set_wordle env g s).1
  unfolding set_wordle
  set_wordle-IsKept g s w kept =
      let (bz, m, u) = wordle_codec.read_back g w in
      rw (m, set_in_lem wordle_key_prefix s (wordle_key g.index) bz)
        (set-IsKept wordle_index wordle_codec kv 87 prefix_rest g bz s u kept)
