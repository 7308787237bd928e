-- ===== src/Relay/Process/Conserves.antt =====
-- A run over a channel loses no packet: each is acknowledged, given up, or kept for the next run.
use mathlib.Core.List.{Perm, perm_middle}
use mathlib.Core.List.Perm
use wordle.Prelude.{ℕ, ◌≡◌, inl, inr, ap, ◌∙◌, sym, Bool, Option, Bytes, List, [], ◌∷◌, ◌++◌, map}
use wordle.Prelude.Maps.{Map}
use wordle.Exec.{Reply, ok, continue-ok, pure, ◌>>=◌}
use wordle.Relay.{PacketInfo, RelayHandler, Context, Network}
use wordle.Relay.Process.{add_to, retried, keep_some, World, check_context, relay_one, process_loop}
use wordle.Relay.Process.Outcome.{Outcome, relay_one-Outcome}

abbrev pub sequences : List PacketInfo → List ℕ
sequences ps = map (λ (p : PacketInfo). p.sequence) ps

abbrev pub add_all : Bytes → List ℕ → Map (List ℕ) → Map (List ℕ)
add_all channel [] m = m
add_all channel (n ∷ ns) m = add_all channel ns (add_to channel n m)

-- The handler with more acknowledgements and timeouts of a channel.
abbrev pub after : Bytes → List ℕ → List ℕ → RelayHandler → RelayHandler
after channel acked lost h = record h {
  acks = add_all channel acked h.acks;
  timeouts = add_all channel lost h.timeouts;
}

-- A run over packets that keeps `rest`.
abbrev pub Ran : Bytes → List PacketInfo → RelayHandler → List PacketInfo → RelayHandler → Type 0
Ran channel ps h rest h' =
    (acked : List ℕ) × (lost : List ℕ) × (h' ≡ after channel acked lost h)
    × Perm (sequences ps) (acked ++ (lost ++ sequences rest))

extend :
    (channel : Bytes) (p : PacketInfo) (ps : List PacketInfo) (h h₁ h' : RelayHandler)
    (kept : Option PacketInfo) (rest : List PacketInfo)
    → Outcome channel p h kept h₁
    → Ran channel ps h₁ rest h'
    → Ran channel (p ∷ ps) h (keep_some kept rest) h'
unfolding retried
extend channel p ps h h₁ h' kept rest (inl (k, e)) (acked, lost, e', q) =
    (p.sequence ∷ acked, lost, e' ∙ ap (after channel acked lost) e, rw k (Perm.cons p.sequence q))
extend channel p ps h h₁ h' kept rest (inr (inl (k, e))) (acked, lost, e', q) = (
  acked,
  p.sequence ∷ lost,
  e' ∙ ap (after channel acked lost) e,
  rw k (
      Perm.trans (Perm.cons p.sequence q) (Perm.symm (perm_middle acked (lost ++ sequences rest)))),
)
extend channel p ps h h₁ h' kept rest (inr (inr (k, e, few))) (acked, lost, e', q) = (
  acked,
  lost,
  e' ∙ ap (after channel acked lost) e,
  rw k (
      Perm.trans (Perm.cons p.sequence q) (
        Perm.trans (Perm.symm (perm_middle acked (lost ++ sequences rest)))
          (Perm.append_left acked (Perm.symm (perm_middle lost (sequences rest)))))),
)

module _ (network : Network) where
  open network use {Net}

  pub done :
      {xs ys : List PacketInfo} {w w' : World network}
      → ◌≡◌ {A = Reply (List PacketInfo) × World network} (ok xs, w) (ok ys, w')
      → (ys ≡ xs) × (w ≡ w')
  done e = (cc, cc)

  -- The loop that succeeds, taken apart: the check passes, one packet, and the others.
  pub loop_cons :
      (stop : Bool) (ctx : Context) (channel : Bytes) (p : PacketInfo) (ps rest : List PacketInfo)
      (h h' : RelayHandler) (n n' : Net)
      → process_loop network stop ctx channel (p ∷ ps) (h, n) ≡ (ok rest, (h', n'))
      → (kept : Option PacketInfo) × (others : List PacketInfo) × (h₁ : RelayHandler) × (n₀ : Net)
        × (n₁ : Net) × (relay_one network stop ctx channel p (h, n₀) ≡ (ok kept, (h₁, n₁)))
        × (process_loop network stop ctx channel ps (h₁, n₁) ≡ (ok others, (h', n')))
        × (rest ≡ keep_some kept others)
  unfolding process_loop
  loop_cons stop ctx channel p ps rest h h' n n' e =
      let check = check_context network stop n in
      let one : Reply (Option PacketInfo) × World network =
        relay_one network stop ctx channel p (h, check.1) in
      let more : Reply (List PacketInfo) × World network =
        process_loop network stop ctx channel ps one.1 in
      let (u, _, e₁) =
        continue-ok check.0
          (λ _. relay_one network stop ctx channel p >>= λ kept.
            process_loop network stop ctx channel ps >>= λ others. pure (keep_some kept others))
          (h, check.1) (h', n') rest e in
      let (kept, r₁, e₂) =
        continue-ok one.0
          (λ kept.
            process_loop network stop ctx channel ps >>= λ others. pure (keep_some kept others))
          one.1 (h', n') rest e₁ in
      let (others, r₂, e₃) =
        continue-ok more.0 (λ others. pure (keep_some kept others)) more.1 (h', n') rest e₂ in
      let (k, w) = done e₃ in
      (
        kept,
        others,
        one.1.0,
        check.1,
        one.1.1,
        ap (λ r. (r, one.1)) r₁,
        (ap (λ r. (r, more.1)) r₂ ∙ ap (λ t. (ok others, t)) w),
        k,
      )

  pub process_loop-Ran :
      (stop : Bool) (ctx : Context) (channel : Bytes) (ps rest : List PacketInfo)
      (h h' : RelayHandler) (n n' : Net)
      → process_loop network stop ctx channel ps (h, n) ≡ (ok rest, (h', n'))
      → Ran channel ps h rest h'
  unfolding process_loop
  process_loop-Ran stop ctx channel [] rest h h' n n' e =
      let (k, w) = done e in ([], [], ap (λ t. t.0) (sym w), rw k (Perm.refl []))
  process_loop-Ran stop ctx channel (p ∷ ps) rest h h' n n' e =
      let (kept, others, h₁, n₀, n₁, one, more, k) =
        loop_cons stop ctx channel p ps rest h h' n n' e in
      rw k (
        extend channel p ps h h₁ h' kept others
          (relay_one-Outcome network stop ctx channel p h h₁ n₀ n₁ kept one)
          (process_loop-Ran stop ctx channel ps others h₁ h' n₁ n' more))
