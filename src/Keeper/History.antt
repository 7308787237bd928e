-- ===== src/Keeper/History.antt =====
-- The module's life: messages and block hooks in any order, on any day and from anyone, whatever they
-- answer. What a refused or crashed message has written stays, as if no transaction undid it.
pub mod Effects
pub mod Writes
pub mod Order
pub mod Export
pub mod Rules
pub mod Guessing
pub mod Wording
pub mod Refines
pub mod Stays
pub mod Restart
pub mod Ledger
use wordle.Prelude.{ℕ, suc, ◌<◌, ◌≡◌, Option, none, some, Bytes, ◌++◌, codes}
use wordle.Prelude.Int.{ℤ, pos, IsInt}
use wordle.Exec.{ok}
use wordle.Types.{Guess, Wordle, Params, IsGoString, IsWireGuess, IsWireWordle}
use wordle.Types.Keys.{guess_key, params_key}
use wordle.Types.Messages.{MsgSubmitWordle, MsgSubmitGuess, MsgUpdateParams}
use wordle.Env.{Env}
use wordle.Keeper.Entries.{Keeps}
use wordle.Keeper.Guesses.Listing
use wordle.Keeper.Wordles.Listing as WordleListing
use wordle.Keeper.Params.{decode_params, update_params}
use wordle.Keeper.Decimal.{itoa}
use wordle.Keeper.Consensus.{begin_block, finalize_block}
use wordle.Keeper.MsgServer.{World, submit_wordle, submit_guess}

-- The prefix of the block states behind its first byte.
abbrev pub state_rest : Bytes
state_rest = codes "lock_state"

module _ (env : Env) where
  open env use {Store, Coins, kv, get, guess_codec, wordle_codec}

  -- The calls that reach the module, from one world to another.
  pub data History : World env → World env → Type 0 where
    start : {w : World env} → History w w
    wordle_message :
        {w v : World env}
        → History w v
        → (today : Bytes) (msg : MsgSubmitWordle) → IsGoString msg.creator
        → History w (submit_wordle env today msg v).1
    guess_message :
        {w v : World env}
        → History w v
        → (today : Bytes) (msg : MsgSubmitGuess) → IsGoString msg.creator
        → History w (submit_guess env today msg v).1
    params_message :
        {w : World env} {s : Store} {c : Coins}
        → History w (s, c)
        → (authority : Bytes) (msg : MsgUpdateParams)
        → History w ((update_params env authority msg s).1, c)
    block_begins :
        {w : World env} {s : Store} {c : Coins}
        → History w (s, c)
        → (height : ℤ) (vote_infos : ℕ) → IsInt 64 height
        → History w ((begin_block env height vote_infos s).1, c)
    block_ends :
        {w : World env} {s : Store} {c : Coins}
        → History w (s, c)
        → (height : ℤ) → History w ((finalize_block env height s).1, c)

  -- A guess that Marshal can write and that counts from one to six guesses, under its own key.
  abbrev pub IsCounted : Bytes → Bytes → Type 0
  IsCounted k bz =
      (g : Guess) × (guess_codec.unmarshal bz ≡ ok g)
      × (k ≡ guess_key g.index)
      × ((n : ℕ) × (n < 6) × (g.count ≡ itoa (pos (suc n))))
      × IsWireGuess g

  -- A wordle that Marshal can write, under its own key.
  abbrev pub IsWorded : Bytes → Bytes → Type 0
  IsWorded k bz =
      (w : Wordle) × (wordle_codec.unmarshal bz ≡ ok w) × (k ≡ guess_key w.index) × IsWireWordle w

  -- The store of the game. No block state is in it: no code but TrackStateChange saves one, and nothing
  -- calls it.
  pub record IsGame (s : Store) : Type 0 where
    pub guesses : Keeps kv 71 Listing.prefix_rest IsCounted s
    pub wordles : Keeps kv 87 WordleListing.prefix_rest IsWorded s
    pub block_states : Keeps kv 98 state_rest (λ k bz. ⊥) s
    pub parameters : (p : Params) × (decode_params env (get s params_key) ≡ ok p)
