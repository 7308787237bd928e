-- ===== src/Relay/Process/Outcome.antt =====
-- What one packet of the loop leads to.
use wordle.Prelude.{◌≡◌, ◌⊎◌, inl, inr, Bool, false, Option, none, some, Bytes, Bool-cases}
use wordle.Prelude.Int.{pos, leb_ℤ}
use wordle.Exec.{Reply, ok, err, panic}
use wordle.Relay.{PacketInfo, RelayHandler, Context, Network}
use wordle.Relay.Expiry.{is_packet_timed_out}
use wordle.Relay.Process.{
  max_retries, acknowledged, given_up, retried, World, settle, relay_one, relay_with_retry,
  timeout_for,
}

-- What is kept of a packet, and the handler after it: it has been acknowledged, it has been given up,
-- or it is kept for another run with one retry more.
abbrev pub Outcome : Bytes → PacketInfo → RelayHandler → Option PacketInfo → RelayHandler → Type 0
Outcome channel p h kept h' =
    ((kept ≡ none) × (h' ≡ acknowledged channel p h))
    ⊎ (((kept ≡ none) × (h' ≡ given_up channel p h))
        ⊎ ((kept ≡ some (retried p)) × (h' ≡ h) × (leb_ℤ (pos max_retries) p.retry_count ≡ false)))

module _ (network : Network) where
  open network use {Net}

  same :
      {kept o : Option PacketInfo} {h h' : RelayHandler} {n n' : Net}
      → ◌≡◌ {A = Reply (Option PacketInfo) × World network} (ok o, (h, n)) (ok kept, (h', n'))
      → (kept ≡ o) × (h' ≡ h)
  same e = (cc, cc)

  settle-Outcome :
      (channel : Bytes) (p : PacketInfo) (r : Reply (Unit {0})) (h h' : RelayHandler) (n n' : Net)
      (kept : Option PacketInfo)
      → settle network channel p r (h, n) ≡ (ok kept, (h', n'))
      → Outcome channel p h kept h'
  unfolding settle
  settle-Outcome channel p (ok t) h h' n n' kept e = inl (same e)
  settle-Outcome channel p (err x) h h' n n' kept e =
      elim (Bool-cases (leb_ℤ (pos max_retries) p.retry_count)) [
        | inl t ↦ inr (inl (same (rw t at e)))
        | inr f ↦ let (a, b) = same (rw f at e) in inr (inr (a, b, f))
      ]
  settle-Outcome channel p panic h h' n n' kept e = absurd (cc)

  pub relay_one-Outcome :
      (stop : Bool) (ctx : Context) (channel : Bytes) (p : PacketInfo) (h h' : RelayHandler)
      (n n' : Net) (kept : Option PacketInfo)
      → relay_one network stop ctx channel p (h, n) ≡ (ok kept, (h', n'))
      → Outcome channel p h kept h'
  unfolding relay_one
  relay_one-Outcome stop ctx channel p h h' n n' kept e =
      elim (Bool-cases (is_packet_timed_out network ctx p)) [
        | inl t ↦ inr (inl (same (rw t at e)))
        | inr f ↦
            let r = relay_with_retry network stop ctx p (timeout_for network h p) n in
            settle-Outcome channel p r.0 h h' r.1 n' kept (rw f at e)
      ]
