-- ===== src/Keeper/History/Effects.antt =====
-- What each message leaves in the store, whatever it answers.
use wordle.Prelude.{
  ℕ, ◌<◌, ◌≡◌, ◌⊎◌, inl, inr, refl, ap, ◌∙◌, arith, Bool, true, false, Bool-cases, Option, none,
  some, Option-cases, Bytes, length, ◌==◌, ==_iff, beq, if◌then◌else◌,
}
use wordle.Prelude.Int.{ℤ, pos, IsInt}
use wordle.Exec.{Reply, ok, err, panic, must, some_reply, continue, no_wordle_today}
use wordle.Types.{Wordle, IsGoString}
use wordle.Types.Messages.{MsgSubmitWordle, MsgSubmitGuess, MsgUpdateParams}
use wordle.Types.Keys.{params_key, block_state_key, consensus_info_key}
use wordle.Env.{Env}
use wordle.Keeper.Guesses.{decode_guess}
use wordle.Keeper.Guesses.Laws.{guess_path}
use wordle.Keeper.Wordles.{decode_wordle}
use wordle.Keeper.Wordles.Laws.{wordle_path, wordle_at}
use wordle.Keeper.MsgServer.{
  World, day_index, guesser_index, new_wordle, new_guess, submit_wordle, submit_guess,
  todays_wordle,
}
use wordle.Keeper.Params.{update_params, decode_params, set_params_lem}
use wordle.Keeper.Tracking.{get_consensus_info, get_block_state, decode_info, decode_state}
use wordle.Keeper.Consensus.{
  begin_block, finalize_block, check_consensus, commit_state, rollback_state, undo_all, verdict,
}
use wordle.Keeper.Consensus.Votes.{opening, opening-IsWireInfo, save_consensus_info_lem}
use wordle.Keeper.Letters.{is_letter}
use wordle.Keeper.MsgServer.Rewards.{escrow_store}
use wordle.Keeper.MsgServer.Submit.{
  IsWord, get_wordle_of, submit_wordle-first, submit_wordle-taken, submit_wordle-malformed,
}
use wordle.Keeper.MsgServer.Guessing.{HasTried, answer_store, seventh_guess, submit_guess-open}

read_back : {A : Type 0} (r : Reply A) (a : A) → some_reply (must r) ≡ ok (some a) → r ≡ ok a
read_back (ok b) a e = cc
read_back (err x) a e = absurd (cc)
read_back panic a e = absurd (cc)

module _ (env : Env) where
  open env use {Store, Coins, get, set, delete, guess_codec, wordle_codec}

  pub IsWord-or_not : (word : Bytes) → IsWord env word ⊎ ¬ IsWord env word
  IsWord-or_not word = elim (Bool-cases (length word == 5)) [
    | inr f ↦ inr (λ h. absurd (cc ((==_iff (length word) 5).1 h.0, f)))
    | inl t ↦ elim (Bool-cases (is_letter env word)) [
      | inl letters ↦ inl ((==_iff (length word) 5).0 t, letters)
      | inr f ↦ inr (λ h. absurd (cc (h.1, f)))
    ]
  ]

  -- The store after SubmitWordle: as it was, or with the wordle of the day.
  pub submit_wordle_store :
      (today : Bytes) (msg : MsgSubmitWordle) (s : Store) (c : Coins) (found : Option Wordle)
      → IsGoString msg.creator
      → wordle_at env s (day_index env today) ≡ ok found
      → ((submit_wordle env today msg (s, c)).1.0 ≡ s)
        ⊎ ((bz : Bytes) × ((submit_wordle env today msg (s, c)).1.0
              ≡ set s (wordle_path (day_index env today)) bz)
            × (wordle_codec.unmarshal bz ≡ ok (new_wordle env today msg)))
  unfolding decode_wordle
  submit_wordle_store today msg s c found g e = elim (IsWord-or_not msg.word) [
    | inr n ↦ inl (ap (λ t. t.1.0) (submit_wordle-malformed env today msg (s, c) n))
    | inl word ↦ elim (Option-cases found) [
      | inr (w, same) ↦
          inl (
            ap (λ t. t.1.0)
              (submit_wordle-taken env today msg s c w word (e ∙ ap (λ t. ok t) same)))
      | inl free ↦
          let (bz, h, d) = submit_wordle-first env today msg s c word g (e ∙ ap (λ t. ok t) free) in
          inr (
            bz,
            ap (λ t. t.1.0) h
                ∙ escrow_store env msg.creator (set s (wordle_path (day_index env today)) bz) c,
            read_back _ _ d,
          )
    ]
  ]

  pub submit_guess-malformed :
      (today : Bytes) (msg : MsgSubmitGuess) (w : World env)
      → ¬ IsWord env msg.word
      → (submit_guess env today msg w).1 ≡ w
  unfolding submit_guess
  submit_guess-malformed today msg w n = ground (arith, n)

  pub submit_guess-no_wordle :
      (today : Bytes) (msg : MsgSubmitGuess) (s : Store) (c : Coins)
      → IsWord env msg.word
      → wordle_at env s (day_index env today) ≡ ok none
      → submit_guess env today msg (s, c) ≡ (err no_wordle_today, (s, c))
  unfolding submit_guess todays_wordle
  submit_guess-no_wordle today msg s c (len, letters) h =
      rw
        (
          (==_iff (length msg.word) 5).1 len,
          letters,
          get_wordle_of env (day_index env today) s (ok none) h,
        )
        refl

  -- The store after SubmitGuess of a guesser who has made `n` guesses, at most six: as it was, or with the
  -- guess counted.
  pub submit_guess_store :
      (today : Bytes) (msg : MsgSubmitGuess) (s : Store) (c : Coins) (found : Option Wordle) (n : ℕ)
      → IsGoString msg.creator
      → wordle_at env s (day_index env today) ≡ ok found
      → HasTried env s (guesser_index env today msg.creator) n
      → (n < 6) ⊎ (n ≡ 6)
      → ((submit_guess env today msg (s, c)).1.0 ≡ s)
        ⊎ ((n < 6)
            × ((bz : Bytes) × ((submit_guess env today msg (s, c)).1.0
                  ≡ set
                      (delete s (guess_path (guesser_index env today msg.creator)))
                      (guess_path (guesser_index env today msg.creator))
                      bz)
                × (guess_codec.unmarshal bz ≡ ok (new_guess env today msg (pos n)))))
  unfolding decode_guess
  submit_guess_store today msg s c found n g e tries small = elim (IsWord-or_not msg.word) [
    | inr bad ↦ inl (ap (λ t. t.0) (submit_guess-malformed today msg (s, c) bad))
    | inl word ↦ elim (Option-cases found) [
      | inl free ↦
          inl
            (ap (λ t. t.1.0) (submit_guess-no_wordle today msg s c word (e ∙ ap (λ t. ok t) free)))
      | inr (w, same) ↦ elim small [
        | inr six ↦ inl (
            ap (λ t. t.1.0)
              (seventh_guess env today msg s c w word (e ∙ ap (λ t. ok t) same) (rw six at tries)))
        | inl fewer ↦
            let (bz, h, d) =
              submit_guess-open env today msg s c w n word g (e ∙ ap (λ t. ok t) same) tries
                fewer in
            inr (fewer, (bz, ap (λ t. t.1.0) h ∙ answer_store env _ _ _ _ c, read_back _ _ d))
      ]
    ]
  ]

  -- The store after UpdateParams: as it was, or with the new parameters.
  pub update_params_store :
      (authority : Bytes) (req : MsgUpdateParams) (s : Store)
      → ((update_params env authority req s).1 ≡ s)
        ⊎ ((bz : Bytes) × ((update_params env authority req s).1 ≡ set s params_key bz)
            × (decode_params env (some bz) ≡ ok req.new_params))
  unfolding update_params
  update_params_store authority req s = elim (Bool-cases (beq authority req.authority)) [
    | inl t ↦ let (bz, e, d) = set_params_lem env req.new_params s in inr (bz, rw (t, e) refl, d)
    | inr f ↦ inl (rw f refl)
  ]

  -- The store after BeginBlock: the consensus information of the height is set.
  pub begin_block_store :
      (height : ℤ) (n : ℕ) (s : Store)
      → IsInt 64 height
      → (bz : Bytes) × ((begin_block env height n s).1 ≡ set s (consensus_info_key height) bz)
  unfolding begin_block
  begin_block_store height n s h =
      let (bz, e, u) =
        save_consensus_info_lem env (opening height n) s (opening-IsWireInfo height n h) in
      (bz, rw e refl)

  -- FinalizeBlock on a store without a block state of the height: what it saved for the height goes, or
  -- nothing changes.
  pub finalize_block_store :
      (height : ℤ) (s : Store)
      → get s (block_state_key height) ≡ none
      → ((finalize_block env height s).1 ≡ s)
        ⊎ ((finalize_block env height s).1
            ≡ delete (delete s (block_state_key height)) (consensus_info_key height))
  unfolding finalize_block check_consensus get_consensus_info commit_state rollback_state
      get_block_state decode_state undo_all
  finalize_block_store height s e =
      decided (verdict env (decode_info env (get s (consensus_info_key height))))
    where
      decided :
          (r : Reply Bool)
          → ((continue r
                (λ agreed. if agreed then commit_state env height else rollback_state env height)
                s).1
              ≡ s)
            ⊎ ((continue r
                  (λ agreed. if agreed then commit_state env height else rollback_state env height)
                  s).1
                ≡ delete (delete s (block_state_key height)) (consensus_info_key height))
      decided (ok true) = inr refl
      decided (ok false) = inl (rw e refl)
      decided (err x) = inl refl
      decided panic = inl refl
