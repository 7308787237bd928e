-- ===== src/Relay/Middleware/Emptied.antt =====
-- What a run of a new handler over a channel leaves behind, under a context that lives.
use mathlib.Core.List.{Perm}
use mathlib.Core.List.Perm
use wordle.Prelude.{
  ℕ, ◌≤◌, ◌≡◌, inl, inr, ap, ◌∙◌, arith, ◌&&◌, ◌==◌, Bool, true, false, Option, none, List, [], ◌∷◌,
  ◌++◌, Bytes, beq_refl, All, Bool-cases, ltb,
}
use wordle.Prelude.Int.{ℤ}
use wordle.Prelude.Maps.{lookup, put, lookup-discard}
use wordle.Exec.{Error, ok}
use wordle.Relay.{Context, Height, PacketInfo, RelayHandler, Network}
use wordle.Relay.Monitor.{or_empty}
use wordle.Relay.Process.{process_channel_packets, keep_remaining, sort_packets, insert_packet}
use wordle.Relay.Process.Conserves.{after}
use wordle.Relay.Process.Channel.{
  add_all-here, besides, besides-add_all, besides-put, besides-keep_remaining, keep_remaining_acks,
}
use wordle.Relay.Middleware.Delivers.{default_network, process_channel_run, split_sequences}

-- No packet stands behind one with a greater sequence number.
abbrev pub IsSorted : List PacketInfo → Type 0
IsSorted [] = Unit {0}
IsSorted (p ∷ ps) = All (λ (q : PacketInfo). p.sequence ≤ q.sequence) ps × IsSorted ps

insert_packet-Perm : (p : PacketInfo) (qs : List PacketInfo) → Perm (p ∷ qs) (insert_packet p qs)
unfolding insert_packet
insert_packet-Perm p [] = Perm.refl _
insert_packet-Perm p (q ∷ qs) = elim (Bool-cases (ltb q.sequence p.sequence)) [
  | inl t ↦ rw t (Perm.trans (Perm.swap q p qs) (Perm.cons q (insert_packet-Perm p qs)))
  | inr f ↦ rw f (Perm.refl _)
]

sort_packets-Perm : (ps : List PacketInfo) → Perm ps (sort_packets ps)
unfolding sort_packets
sort_packets-Perm [] = Perm.refl []
sort_packets-Perm (p ∷ ps) =
    Perm.trans (Perm.cons p (sort_packets-Perm ps)) (insert_packet-Perm p (sort_packets ps))

insert_packet-All :
    (n : ℕ) (p : PacketInfo) (qs : List PacketInfo)
    → n ≤ p.sequence
    → All (λ (q : PacketInfo). n ≤ q.sequence) qs
    → All (λ (q : PacketInfo). n ≤ q.sequence) (insert_packet p qs)
unfolding insert_packet
insert_packet-All n p [] le h = (le, tt)
insert_packet-All n p (q ∷ qs) le (h, hs) = elim (Bool-cases (ltb q.sequence p.sequence)) [
  | inl t ↦ rw t (h, insert_packet-All n p qs le hs)
  | inr f ↦ rw f (le, (h, hs))
]

All-weaken :
    (m n : ℕ) (qs : List PacketInfo)
    → m ≤ n
    → All (λ (q : PacketInfo). n ≤ q.sequence) qs
    → All (λ (q : PacketInfo). m ≤ q.sequence) qs
All-weaken m n [] le h = tt
All-weaken m n (q ∷ qs) le (h, hs) = (omega (arith, le, h), All-weaken m n qs le hs)

insert_packet-IsSorted :
    (p : PacketInfo) (qs : List PacketInfo) → IsSorted qs → IsSorted (insert_packet p qs)
unfolding insert_packet
insert_packet-IsSorted p [] o = (tt, tt)
insert_packet-IsSorted p (q ∷ qs) (h, o) = elim (Bool-cases (ltb q.sequence p.sequence)) [
  | inl t ↦
      rw t (insert_packet-All q.sequence p qs (ground (arith, t)) h, insert_packet-IsSorted p qs o)
  | inr f ↦
      let le : p.sequence ≤ q.sequence = ground (arith, f) in
      rw f ((le, All-weaken p.sequence q.sequence qs le h), (h, o))
]

sort_packets-IsSorted : (ps : List PacketInfo) → IsSorted (sort_packets ps)
unfolding sort_packets
sort_packets-IsSorted [] = tt
sort_packets-IsSorted (p ∷ ps) =
    insert_packet-IsSorted p (sort_packets ps) (sort_packets-IsSorted ps)

keep_remaining-gone :
    (channel : Bytes) (h : RelayHandler)
    → lookup channel (keep_remaining channel [] h).pending_packets ≡ none
unfolding keep_remaining
keep_remaining-gone channel h =
    rw (lookup-discard channel channel h.pending_packets, beq_refl channel)

module _ {Net : Type 0} (cancelled : Net → Option Error) (is_zero_height : Height → Bool)
    (zero_law : (h : Height)
      → is_zero_height h ≡ ((h.revision_number == 0) && (h.revision_height == 0)))
    (too_big : ℤ) where
  abbrev network : Network
  network = default_network cancelled is_zero_height zero_law too_big

  abbrev split : Bool → Context → List PacketInfo → List ℕ
  split = split_sequences cancelled is_zero_height zero_law too_big

  -- While the context lives, a run of a new handler over the packets of a channel succeeds. In the order
  -- of their sequence numbers, those of the packets that have timed out are put behind the timeouts of
  -- the channel, and those of all other packets behind its acknowledgements. No packet of the channel is
  -- left, and the other channels stay as they are.
  pub process_channel_delivers :
      (ctx : Context) (channel : Bytes) (packets : List PacketInfo) (h : RelayHandler) (n : Net)
      → cancelled n ≡ none
      → (h' : RelayHandler) × (process_channel_packets network false ctx channel packets (h, n)
          ≡ (ok tt, (h', n)))
        × (sorted : List PacketInfo) × Perm packets sorted
        × IsSorted sorted
        × (or_empty (lookup channel h'.acks)
            ≡ or_empty (lookup channel h.acks) ++ split false ctx sorted)
        × (or_empty (lookup channel h'.timeouts)
            ≡ or_empty (lookup channel h.timeouts) ++ split true ctx sorted)
        × (lookup channel h'.pending_packets ≡ none)
        × ((j : Bytes)
            → (besides channel h'.acks j ≡ besides channel h.acks j)
              × (besides channel h'.timeouts j ≡ besides channel h.timeouts j)
              × (besides channel h'.pending_packets j ≡ besides channel h.pending_packets j))
  process_channel_delivers ctx channel packets h n alive =
      let sorted = sort_packets packets in
      let h₀ : RelayHandler = record h { pending_packets = put channel sorted h.pending_packets } in
      let acked = split false ctx sorted in
      let lost = split true ctx sorted in
      let h₁ : RelayHandler = after channel acked lost h₀ in
      let (ha, ht) = keep_remaining_acks channel [] h₁ in
      (
        keep_remaining channel [] h₁,
        process_channel_run cancelled is_zero_height zero_law too_big ctx channel packets h n alive,
        sorted,
        sort_packets-Perm packets,
        sort_packets-IsSorted packets,
        ap (λ m. or_empty (lookup channel m)) ha ∙ add_all-here channel acked h.acks,
        ap (λ m. or_empty (lookup channel m)) ht ∙ add_all-here channel lost h.timeouts,
        keep_remaining-gone channel h₁,
        (λ j. (
          ap (λ m. besides channel m j) ha ∙ besides-add_all channel j acked h.acks,
          ap (λ m. besides channel m j) ht ∙ besides-add_all channel j lost h.timeouts,
          besides-keep_remaining channel j [] h₁ ∙ besides-put channel j sorted h.pending_packets,
        )),
      )
