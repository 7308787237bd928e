-- ===== src/Keeper/Params.antt =====
-- x/wordle/keeper/params.go and msg_update_params.go: the parameters and the only message that sets them.
use wordle.Prelude.{
  ◌≡◌, ◌≢◌, ◌⊎◌, inl, inr, Bool-cases, arith, ◌∙◌, Bytes, beq, beq_refl, beq_iff, Option, none,
  some,
}
use wordle.Exec.{
  Reply, ok, err, Exec, lift, gets, modify, guard, must, fail, invalid_signer, invalid_argument,
  ◌>>=◌, ◌>>◌,
}
use wordle.Types.{Params, params}
use wordle.Types.Keys.{params_key}
use wordle.Types.Messages.{MsgUpdateParams}
use wordle.Env.{Env}

module _ (env : Env) where
  open env use {Store, get, set, get-set, params_codec}

  -- What GetParams makes of the bytes in the store; no bytes are Go's zero value.
  unfoldable pub decode_params : Option Bytes → Reply Params
  decode_params none = ok params
  decode_params (some bz) = must (params_codec.unmarshal bz)

  unfoldable pub get_params : Exec Store Params
  get_params = do bz ← gets (λ s. get s params_key); lift (decode_params bz)

  unfoldable pub set_params : Params → Exec Store (Unit {0})
  set_params p = do bz ← lift (params_codec.marshal p); modify (λ s. set s params_key bz)

  -- UpdateParams of a keeper with an authority.
  unfoldable pub update_params : Bytes → MsgUpdateParams → Exec Store (Unit {0})
  update_params authority req = do
    guard (beq authority req.authority) invalid_signer
    set_params req.new_params

  -- Params of the query server; `req` is none for a nil request.
  unfoldable pub query_params : {A : Type 0} → Option A → Exec Store Params
  unfolding get_params
  query_params none = fail invalid_argument
  query_params (some req) = get_params

  pub set_params_lem :
      (p : Params) (s : Store)
      → (bz : Bytes) × (set_params p s ≡ (ok tt, set s params_key bz))
        × (decode_params (some bz) ≡ ok p)
  unfolding set_params decode_params
  set_params_lem p s = let (bz, m, u) = params_codec.read_back p tt in (bz, rw m, rw u)

  pub get_params-set :
      (s : Store) (bz : Bytes) → (get_params (set s params_key bz)).0 ≡ decode_params (some bz)
  unfolding get_params
  get_params-set s bz = rw (get-set s _ _ params_key bz, beq_refl params_key)

  -- UpdateParams from any signer but the authority is refused and changes nothing; from the authority
  -- it succeeds, and the query then returns the new parameters.
  pub update_params_lem :
      {A : Type 0} (authority : Bytes) (req : MsgUpdateParams) (query : A) (s : Store)
      → ((authority ≢ req.authority) × (update_params authority req s ≡ (err invalid_signer, s)))
        ⊎ ((authority ≡ req.authority)
            × ((update_params authority req s).0 ≡ ok tt)
            × ((query_params (some query) (update_params authority req s).1).0 ≡ ok req.new_params))
  unfolding update_params query_params
  update_params_lem authority req query s = elim (Bool-cases (beq authority req.authority)) [
    | inl t ↦
        let (bz, e, d) = set_params_lem req.new_params s in
        inr ((beq_iff authority req.authority).0 t, rw (t, e), rw (t, e) (get_params-set s bz ∙ d))
    | inr f ↦ inl (ground (arith, beq_iff authority req.authority), rw f)
  ]
