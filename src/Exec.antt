-- ===== src/Exec.antt =====
-- Go functions that may return an error or panic, as actions on an explicit state. What was written
-- before an error stays written, so the state comes back beside the outcome.
use wordle.Prelude.{◌≡◌, refl, ℕ, Bool, true, false, List, ◌∷◌, Option, some}

-- The errors that the modelled code makes, and those of its dependencies as `external`.
pub data Error : Type 0 where
  wordle_length wordle_letters wordle_submitted : Error
  guess_length guess_letters no_wordle_today guess_limit : Error
  invalid_signer invalid_address invalid_authority : Error
  invalid_argument not_found internal : Error
  duplicate_wordle duplicate_guess : Error
  bad_sequence missing_source_port missing_source_channel missing_source_chain : Error
  missing_dest_port missing_dest_channel missing_dest_chain missing_data : Error
  packet_expired duplicate_packet packet_out_of_order : Error
  context_cancelled : Error
  tx_decode invalid_gas insufficient_fee insufficient_funds no_fee_collector grants_disabled : Error
  unknown_address missing_keeper vesting_times : Error
  retries_exceeded : Error → Error
  external : ℕ → Error

pub data Reply {ℓ} (A : Type ℓ) : Type ℓ where
  ok : A → Reply A
  err : Error → Reply A
  panic : Reply A

abbrev pub Exec {ℓ} : Type ℓ → Type ℓ → Type ℓ
Exec S A = S → Reply A × S

module _ {ℓ} {S A : Type ℓ} where
  abbrev pub pure : A → Exec S A
  pure a s = (ok a, s)

  abbrev pub fail : Error → Exec S A
  fail e s = (err e, s)

  abbrev pub crash : Exec S A
  crash s = (panic, s)

  abbrev pub lift : Reply A → Exec S A
  lift r s = (r, s)

  abbrev pub gets : (S → A) → Exec S A
  gets f s = (ok (f s), s)

-- `if err != nil { panic(err) }`
abbrev pub must {ℓ} : {A : Type ℓ} → Reply A → Reply A
must (ok a) = ok a
must (err e) = panic
must panic = panic

-- A call on the value of another that neither fails nor panics.
abbrev pub reply_bind : {A B : Type 0} → Reply A → (A → Reply B) → Reply B
reply_bind (ok a) f = f a
reply_bind (err e) f = err e
reply_bind panic f = panic

module _ {ℓ} {S A B : Type ℓ} where
  abbrev pub continue : Reply A → (A → Exec S B) → Exec S B
  continue (ok a) f s = f a s
  continue (err e) f s = (err e, s)
  continue panic f s = (panic, s)

  infixl 5 ◌>>=◌ ◌>>◌
  abbrev pub ◌>>=◌ : Exec S A → (A → Exec S B) → Exec S B
  (m >>= f) s = continue (m s).0 f (m s).1

  abbrev pub ◌>>◌ : Exec S A → Exec S B → Exec S B
  ◌>>◌ m n = m >>= λ _. n

-- A chain that succeeds has a first action that does.
pub continue-ok :
    {S A B : Type 0} (r : Reply A) (f : A → Exec S B) (s s' : S) (b : B)
    → continue r f s ≡ (ok b, s')
    → (a : A) × (r ≡ ok a) × (f a s ≡ (ok b, s'))
continue-ok (ok a) f s s' b e = (a, refl, e)
continue-ok (err x) f s s' b e = absurd (cc)
continue-ok panic f s s' b e = absurd (cc)

module _ {S : Type 0} where
  -- `if !b { return err }`
  abbrev pub guard : Bool → Error → Exec S (Unit {0})
  guard true e = pure tt
  guard false e = fail e

  abbrev pub modify : (S → S) → Exec S (Unit {0})
  modify f s = (ok tt, f s)

-- One more element in front of what a loop has collected; the first failure ends the loop.
abbrev pub cons_reply : {A : Type 0} → Reply A → Reply (List A) → Reply (List A)
cons_reply (ok a) (ok xs) = ok (a ∷ xs)
cons_reply (ok a) (err e) = err e
cons_reply (ok a) panic = panic
cons_reply (err e) r = err e
cons_reply panic r = panic

abbrev pub some_reply : {A : Type 0} → Reply A → Reply (Option A)
some_reply (ok a) = ok (some a)
some_reply (err e) = err e
some_reply panic = panic
