-- ===== src/Relay/Process/Sending.antt =====
-- relayWithRetry: the first success, or the error of the sixth failure.
use wordle.Prelude.{ℕ, zero, suc, ◌≤◌, ◌≡◌, ◌⊎◌, inl, inr, ap, ◌∙◌, arith, false, none}
use wordle.Prelude.Int.{ℤ}
use wordle.Exec.{Reply, ok, err, Error, continue}
use wordle.Relay.{PacketInfo, Context, Network}
use wordle.Relay.Process.{check_context, attempts, again, last_reply, relay_with_retry}

module _ (network : Network) (ctx : Context) (packet : PacketInfo) (timeout : ℤ) where
  open network use {Net, cancelled, send}

  -- `k` attempts that fail, one after the other, while the context lives.
  pub data Failed : ℕ → Net → Net → Type 0 where
    no_attempt : {n : Net} → Failed 0 n n
    failed :
        {k : ℕ} {n m m' : Net} (e : Error)
        → cancelled n ≡ none
        → send ctx packet timeout n ≡ (err e, m)
        → Failed k m m'
        → Failed (suc k) n m'

  pub alive_lem : (n : Net) → cancelled n ≡ none → check_context network false n ≡ (ok tt, n)
  unfolding check_context
  alive_lem n a = rw a

  attempt_last :
      (n m : Net) (r : Reply (Unit {0}))
      → cancelled n ≡ none
      → send ctx packet timeout n ≡ (r, m)
      → attempts network false ctx packet timeout 0 n ≡ (last_reply r, m)
  unfolding attempts
  attempt_last n m r a s =
      ap
        (λ p.
          continue {A = Unit {0}} p.0
            (λ _ x. (last_reply (send ctx packet timeout x).0, (send ctx packet timeout x).1)) p.1)
        (alive_lem n a)
      ∙ ap (λ t. (last_reply t.0, t.1)) s

  attempt_more :
      (left : ℕ) (n m : Net) (r : Reply (Unit {0}))
      → cancelled n ≡ none
      → send ctx packet timeout n ≡ (r, m)
      → attempts network false ctx packet timeout (suc left) n
        ≡ again network r (attempts network false ctx packet timeout left) m
  unfolding attempts
  attempt_more left n m r a s =
      ap
        (λ p.
          continue {A = Unit {0}} p.0
            (λ _ x.
              again network (send ctx packet timeout x).0
                (attempts network false ctx packet timeout left) (send ctx packet timeout x).1)
            p.1)
        (alive_lem n a)
      ∙ ap (λ t. again network t.0 (attempts network false ctx packet timeout left) t.1) s

  attempts_lem :
      (left k : ℕ) (n m m' : Net) (r : Reply (Unit {0}))
      → Failed k n m
      → cancelled m ≡ none
      → send ctx packet timeout m ≡ (r, m')
      → ((r ≡ ok tt) × (k ≤ left)) ⊎ (k ≡ left)
      → attempts network false ctx packet timeout left n ≡ (last_reply r, m')
  unfolding again
  attempts_lem zero zero n m m' r no_attempt alive s end = attempt_last n m' r alive s
  attempts_lem zero (suc k) n m m' r (failed e a f d) alive s end = absurd (ground arith)
  attempts_lem (suc left) zero n m m' r no_attempt alive s (inl (e, _)) =
      attempt_more left n m' r alive s ∙ rw e
  attempts_lem (suc left) zero n m m' r no_attempt alive s (inr e) = absurd (omega arith)
  attempts_lem (suc left) (suc k) n m m' r (failed {m = m₁} e a f d) alive s end =
      attempt_more left n m₁ (err e) a f ∙ attempts_lem left k m₁ m m' r d alive s (fewer end)
    where
      fewer :
          ((r ≡ ok tt) × (suc k ≤ suc left)) ⊎ (suc k ≡ suc left)
          → ((r ≡ ok tt) × (k ≤ left)) ⊎ (k ≡ left)
      fewer (inl (e, h)) = inl (e, omega arith)
      fewer (inr h) = inr (omega arith)

  -- After `k` failures the context lives and the next attempt replies: with a success, at most five
  -- failures before it, the packet is sent; with the reply to a sixth attempt, that reply decides, an
  -- error wrapped as exceeded retries.
  pub relay_with_retry_lem :
      (k : ℕ) (n m m' : Net) (r : Reply (Unit {0}))
      → Failed k n m
      → cancelled m ≡ none
      → send ctx packet timeout m ≡ (r, m')
      → ((r ≡ ok tt) × (k ≤ 5)) ⊎ (k ≡ 5)
      → relay_with_retry network false ctx packet timeout n ≡ (last_reply r, m')
  unfolding relay_with_retry
  relay_with_retry_lem k n m m' r d alive s end = attempts_lem 5 k n m m' r d alive s end
