-- ===== src/Relay/Process/Tries.antt =====
-- The retries of a packet run out.
use wordle.Prelude.{
  ℕ, suc, ◌+◌, ◌-◌, ◌<◌, ◌≤◌, ◌≡◌, inl, inr, refl, arith, Bool, false, Option, Bytes, List, [], ◌∷◌,
  length, All,
}
use wordle.Prelude.Int.{pos, pos_part, wrap, ◌+ℤ◌, leb_ℤ}
use wordle.Exec.{ok}
use wordle.Relay.{PacketInfo, RelayHandler, Context, Network}
use wordle.Relay.Process.{process_loop, keep_some, retried, max_retries}
use wordle.Relay.Process.Outcome.{Outcome, relay_one-Outcome}
use wordle.Relay.Process.Conserves.{loop_cons, done}

-- A packet that has run at most five times.
abbrev pub IsTried : PacketInfo → Type 0
IsTried p = (k : ℕ) × (p.retry_count ≡ pos k) × (k ≤ 5)

-- The runs that are left to the packets, six for a new one.
abbrev pub runs_left : List PacketInfo → ℕ
runs_left [] = 0
runs_left (p ∷ ps) = (6 - pos_part p.retry_count) + runs_left ps

one_more :
    (k : ℕ)
    → k ≤ 5
    → leb_ℤ (pos max_retries) (pos k) ≡ false
    → (k < 5) × (wrap 64 (pos k +ℤ pos 1) ≡ pos (suc k))
unfolding ◌+ℤ◌
one_more k h f = ground arith

Outcome-runs :
    (channel : Bytes) (p : PacketInfo) (h h' : RelayHandler) (kept : Option PacketInfo)
    (rest : List PacketInfo)
    → IsTried p
    → All IsTried rest
    → Outcome channel p h kept h'
    → All IsTried (keep_some kept rest)
      × (suc (runs_left (keep_some kept rest)) ≤ (6 - pos_part p.retry_count) + runs_left rest)
unfolding retried
Outcome-runs channel p h h' kept rest (k, c, s) a (inl (e, _)) = rw (e, c) (a, omega arith)
Outcome-runs channel p h h' kept rest (k, c, s) a (inr (inl (e, _))) = rw (e, c) (a, omega arith)
Outcome-runs channel p h h' kept rest (k, c, s) a (inr (inr (e, _, f))) =
    let (few, next) = one_more k s (rw c at f) in
    rw (e, c, next) (((suc k, refl, omega (arith, few)), a), omega (arith, few))

module _ (network : Network) where
  open network use {Net}

  -- A run of the loop that succeeds over packets that have run at most five times keeps such packets
  -- only, and the runs left to the packets together, six for a new packet, fall by at least the number
  -- of packets.
  pub process_loop-runs :
      (stop : Bool) (ctx : Context) (channel : Bytes) (ps rest : List PacketInfo)
      (h h' : RelayHandler) (n n' : Net)
      → All IsTried ps
      → process_loop network stop ctx channel ps (h, n) ≡ (ok rest, (h', n'))
      → All IsTried rest × (runs_left rest + length ps ≤ runs_left ps)
  unfolding process_loop
  process_loop-runs stop ctx channel [] rest h h' n n' a e =
      let (k, w) = done network e in rw k (tt, omega arith)
  process_loop-runs stop ctx channel (p ∷ ps) rest h h' n n' (t, a) e =
      let (kept, others, h₁, n₀, n₁, one, more, k) =
        loop_cons network stop ctx channel p ps rest h h' n n' e in
      let (b, le) = process_loop-runs stop ctx channel ps others h₁ h' n₁ n' a more in
      let (c, less) =
        Outcome-runs channel p h h₁ kept others t b
          (relay_one-Outcome network stop ctx channel p h h₁ n₀ n₁ kept one) in
      rw k (c, omega (arith, le, less))
