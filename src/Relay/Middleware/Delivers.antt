-- ===== src/Relay/Middleware/Delivers.antt =====
-- A handler that sends with relayPacket, under a context that lives.
use wordle.Prelude.{
  ℕ, ◌≡◌, refl, ap, ◌∙◌, arith, Bool, true, false, Option, none, Bytes, List, [], ◌∷◌, Bool-cases,
  inl, inr, if◌then◌else◌, ◌==◌, ◌&&◌,
}
use wordle.Prelude.Int.{ℤ, pos}
use wordle.Prelude.Maps.{put}
use wordle.Exec.{ok, Error, Exec, continue, pure, modify, ◌>>=◌}
use wordle.Relay.{PacketInfo, RelayHandler, Context, Network, Height}
use wordle.Relay.Expiry.{is_packet_timed_out}
use wordle.Relay.Process.{
  World, process_loop, relay_one, relay_with_retry, settle, timeout_for, process_channel_packets,
  sort_packets, keep_remaining, keep_some, acknowledged, given_up,
}
use wordle.Relay.Process.Conserves.{after}
use wordle.Relay.Process.Sending.{no_attempt, relay_with_retry_lem, alive_lem}
use wordle.Relay.Middleware.{relay_packet}

module _ {Net : Type 0} (cancelled : Net → Option Error) (is_zero_height : Height → Bool)
    (zero_law : (h : Height)
      → is_zero_height h ≡ ((h.revision_number == 0) && (h.revision_height == 0)))
    (too_big : ℤ) where
  -- The network of NewRelayHandler.
  abbrev pub default_network : Network
  default_network = record {
    Net = Net;
    cancelled = cancelled;
    send = relay_packet;
    is_zero_height = is_zero_height;
    is_zero_height_lem = zero_law;
    too_big = too_big;
  }

  -- The sequence numbers of the packets that have timed out, or of the others.
  unfoldable pub split_sequences : Bool → Context → List PacketInfo → List ℕ
  split_sequences expired ctx [] = []
  split_sequences expired ctx (p ∷ ps) =
      let rest = split_sequences expired ctx ps in
      if is_packet_timed_out default_network ctx p
      then (if expired then p.sequence ∷ rest else rest)
      else (if expired then rest else p.sequence ∷ rest)

  sent :
      (ctx : Context) (p : PacketInfo) (t : ℤ) (n : Net)
      → cancelled n ≡ none
      → relay_with_retry default_network false ctx p t n ≡ (ok tt, n)
  sent ctx p t n alive =
      relay_with_retry_lem default_network ctx p t 0 n n n (ok tt) no_attempt alive
        (unfold relay_packet in refl) (inl (refl, ground arith))

  relay_one-expired :
      (ctx : Context) (channel : Bytes) (p : PacketInfo) (h : RelayHandler) (n : Net)
      → is_packet_timed_out default_network ctx p ≡ true
      → relay_one default_network false ctx channel p (h, n) ≡ (ok none, (given_up channel p h, n))
  unfolding relay_one
  relay_one-expired ctx channel p h n t = rw t

  relay_one-sent :
      (ctx : Context) (channel : Bytes) (p : PacketInfo) (h : RelayHandler) (n : Net)
      → cancelled n ≡ none
      → is_packet_timed_out default_network ctx p ≡ false
      → relay_one default_network false ctx channel p (h, n)
        ≡ (ok none, (acknowledged channel p h, n))
  unfolding relay_one settle
  relay_one-sent ctx channel p h n alive f = rw f (
      ap (λ r. settle default_network channel p r.0 (h, r.1))
        (sent ctx p (timeout_for default_network h p) n alive))

  loop_step :
      (ctx : Context) (channel : Bytes) (p : PacketInfo) (ps : List PacketInfo)
      (h h₁ h' : RelayHandler) (n : Net)
      → cancelled n ≡ none
      → relay_one default_network false ctx channel p (h, n) ≡ (ok none, (h₁, n))
      → process_loop default_network false ctx channel ps (h₁, n) ≡ (ok [], (h', n))
      → process_loop default_network false ctx channel (p ∷ ps) (h, n) ≡ (ok [], (h', n))
  unfolding process_loop
  loop_step ctx channel p ps h h₁ h' n alive one more =
      let others : Option PacketInfo → Exec (World default_network) (List PacketInfo) = λ kept.
        process_loop default_network false ctx channel ps >>= λ rest. pure (keep_some kept rest) in
      ap
        (λ c.
          continue {A = Unit {0}} c.0
            (λ _. relay_one default_network false ctx channel p >>= others) (h, c.1))
        (alive_lem default_network ctx p (pos 0) n alive)
      ∙ ap (λ r. continue {A = Option PacketInfo} r.0 others r.1) one
      ∙ ap (λ r. continue {A = List PacketInfo} r.0 (λ rest. pure (keep_some none rest)) r.1) more

  loop_delivers :
      (ctx : Context) (channel : Bytes) (ps : List PacketInfo) (h : RelayHandler) (n : Net)
      → cancelled n ≡ none
      → process_loop default_network false ctx channel ps (h, n)
        ≡ (ok [], (after channel (split_sequences false ctx ps) (split_sequences true ctx ps) h, n))
  unfolding process_loop split_sequences
  loop_delivers ctx channel [] h n alive = refl
  loop_delivers ctx channel (p ∷ ps) h n alive =
      elim (Bool-cases (is_packet_timed_out default_network ctx p)) [
        | inl t ↦ rw t (
            loop_step ctx channel p ps h (given_up channel p h) _ n alive
              (relay_one-expired ctx channel p h n t)
              (loop_delivers ctx channel ps (given_up channel p h) n alive))
        | inr f ↦ rw f (
            loop_step ctx channel p ps h (acknowledged channel p h) _ n alive
              (relay_one-sent ctx channel p h n alive f)
              (loop_delivers ctx channel ps (acknowledged channel p h) n alive))
      ]

  -- While the context lives, what a run of a new handler over a channel does, in the code's steps.
  pub process_channel_run :
      (ctx : Context) (channel : Bytes) (ps : List PacketInfo) (h : RelayHandler) (n : Net)
      → cancelled n ≡ none
      → process_channel_packets default_network false ctx channel ps (h, n) ≡ (
        ok tt,
        (
          keep_remaining channel [] (
              after channel
                (split_sequences false ctx (sort_packets ps))
                (split_sequences true ctx (sort_packets ps))
                (record h { pending_packets = put channel (sort_packets ps) h.pending_packets })),
          n,
        ),
      )
  unfolding process_channel_packets
  process_channel_run ctx channel ps h n alive =
      ap
        (λ r.
          continue {A = List PacketInfo} r.0
            (λ rest. modify (λ (w : World default_network). (keep_remaining channel rest w.0, w.1)))
            r.1)
        (loop_delivers ctx channel (sort_packets ps)
          (record h { pending_packets = put channel (sort_packets ps) h.pending_packets }) n alive)
