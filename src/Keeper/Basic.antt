-- ===== src/Keeper/Basic.antt =====
-- The checks without a store: ValidateBasic of the messages (x/wordle/types/message_*.go and
-- msg_update_params.go), Params.Validate (params.go) and NewKeeper (x/wordle/keeper/keeper.go).
use wordle.Prelude.{◌≡◌, ◌≢◌, inl, inr, refl, sym, ap, ◌∙◌, Bytes}
use wordle.Exec.{Reply, ok, err, panic, invalid_address, invalid_signer}
use wordle.Types.{Params}
use wordle.Types.Keys.{module_name}
use wordle.Types.Messages.{MsgSubmitWordle, MsgSubmitGuess, MsgUpdateParams}
use wordle.Env.{Env}
use wordle.Keeper.Entries.{ok_injective}
use wordle.Keeper.Params.{update_params, update_params_lem}
use wordle.Keeper.MsgServer.{on_coins, or_no_address, reward, escrow}

-- `Params.Validate` accepts all parameters.
abbrev pub validate_params : Params → Reply (Unit {0})
validate_params p = ok tt

-- `if _, err := sdk.AccAddressFromBech32(...); err != nil { return errorsmod.Wrapf(ErrInvalidAddress, ...) }`
unfoldable pub address_checked : Reply Bytes → Reply (Unit {0})
address_checked (ok address) = ok tt
address_checked (err e) = err invalid_address
address_checked panic = panic

-- `return errorsmod.Wrap(err, "invalid authority address")`: the error stays the same.
unfoldable pub authority_checked : Reply Bytes → Reply (Unit {0}) → Reply (Unit {0})
authority_checked (ok address) rest = rest
authority_checked (err e) rest = err e
authority_checked panic rest = panic

-- The keeper's fields besides the authority are the environment.
pub record Keeper : Type 0 where
  pub authority : Bytes

-- `panic(fmt.Sprintf("invalid authority address: %s", authority))`
unfoldable pub keeper_of : Bytes → Reply Bytes → Reply Keeper
keeper_of authority (ok address) = ok (record { authority = authority })
keeper_of authority (err e) = panic
keeper_of authority panic = panic

module _ (env : Env) where
  open env use {Store, Coins, parse_address, from_module, to_module}

  unfoldable pub validate_submit_wordle : MsgSubmitWordle → Reply (Unit {0})
  unfolding address_checked
  validate_submit_wordle msg = address_checked (parse_address msg.creator)

  unfoldable pub validate_submit_guess : MsgSubmitGuess → Reply (Unit {0})
  unfolding address_checked
  validate_submit_guess msg = address_checked (parse_address msg.creator)

  unfoldable pub validate_update_params : MsgUpdateParams → Reply (Unit {0})
  unfolding authority_checked
  validate_update_params msg =
      authority_checked (parse_address msg.authority) (validate_params msg.new_params)

  unfoldable pub new_keeper : Bytes → Reply Keeper
  unfolding keeper_of
  new_keeper authority = keeper_of authority (parse_address authority)

  parsed : (r : Reply Bytes) → address_checked r ≡ ok tt → (address : Bytes) × (r ≡ ok address)
  unfolding address_checked
  parsed (ok address) h = (address, refl)
  parsed (err e) h = absurd (cc)
  parsed panic h = absurd (cc)

  -- The handlers drop the error of the address. Where ValidateBasic accepts the message there is none: the
  -- reward of a guess goes to the address of its creator.
  pub reward-validate_submit_guess :
      (msg : MsgSubmitGuess) (s : Store) (c : Coins)
      → validate_submit_guess msg ≡ ok tt
      → (address : Bytes) × (parse_address msg.creator ≡ ok address)
        × (reward env msg.creator (s, c)
            ≡ on_coins env (from_module module_name address 100) (s, c))
  unfolding validate_submit_guess reward or_no_address
  reward-validate_submit_guess msg s c h =
      let (address, e) = parsed (parse_address msg.creator) h in (address, e, rw e refl)

  -- The same of the escrow of a wordle.
  pub escrow-validate_submit_wordle :
      (msg : MsgSubmitWordle) (s : Store) (c : Coins)
      → validate_submit_wordle msg ≡ ok tt
      → (address : Bytes) × (parse_address msg.creator ≡ ok address)
        × (escrow env msg.creator (s, c) ≡ on_coins env (to_module address module_name 100) (s, c))
  unfolding validate_submit_wordle escrow or_no_address
  escrow-validate_submit_wordle msg s c h =
      let (address, e) = parsed (parse_address msg.creator) h in (address, e, rw e refl)

  kept_authority :
      (authority : Bytes) (r : Reply Bytes) (k : Keeper)
      → keeper_of authority r ≡ ok k
      → (k.authority ≡ authority) × (authority_checked r (ok tt) ≡ ok tt)
  unfolding keeper_of authority_checked
  kept_authority authority (ok address) k h =
      (sym (ap (λ (x : Keeper). x.authority) (ok_injective h)), refl)
  kept_authority authority (err e) k h = absurd (cc)
  kept_authority authority panic k h = absurd (cc)

  refused_or_not :
      (s : Store) (r : Reply (Unit {0}) × Store) → r ≡ (err invalid_signer, s) → r.0 ≢ ok tt
  refused_or_not s r e h = absurd (cc)

  -- What UpdateParams of a keeper accepts, ValidateBasic accepts too: the authority of a keeper has an
  -- address, since NewKeeper panics without one.
  pub validate_update_params-update_params :
      (authority : Bytes) (k : Keeper) (msg : MsgUpdateParams) (s : Store)
      → new_keeper authority ≡ ok k
      → (update_params env k.authority msg s).0 ≡ ok tt
      → validate_update_params msg ≡ ok tt
  unfolding new_keeper validate_update_params
  validate_update_params-update_params authority k msg s h accepted =
      let (same, checked) = kept_authority authority (parse_address authority) k h in
      elim (update_params_lem env k.authority msg tt s) [
        | inl (other, refused) ↦ absurd (refused_or_not s _ refused accepted)
        | inr (is, _, _) ↦ rw (sym same ∙ is) at checked
      ]
