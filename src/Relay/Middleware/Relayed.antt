-- ===== src/Relay/Middleware/Relayed.antt =====
-- A packet queued into an idle handler and relayed by the ProcessPackets that follows: what
-- OnRecvPacket means to do, for a packet that names its chains.
use wordle.Prelude.{
  ℕ, ◌≡◌, refl, ap, ◌∙◌, arith, ◌&&◌, ◌==◌, Bool, true, false, Option, none, List, [], ◌∷◌, ◌++◌,
  Bytes, beq_refl,
}
use wordle.Prelude.Int.{ℤ}
use wordle.Prelude.Maps.{lookup, put, lookup-discard}
use wordle.Exec.{Error, ok}
use wordle.Relay.{Context, Height, PacketInfo, RelayHandler, Network}
use wordle.Relay.Monitor.{or_empty}
use wordle.Relay.Expiry.{is_packet_timed_out}
use wordle.Relay.Queue.{
  has_sequence, behind_last, channel_id, enqueued, queue_packet, waiting, check_order,
}
use wordle.Relay.Queue.Meaning.{IsComplete, validate_packet-ok}
use wordle.Relay.Process.{
  World, Group, process_packets, process_channel_packets, goroutines, keep_remaining, sort_packets,
  insert_packet,
}
use wordle.Relay.Process.Conserves.{after}
use wordle.Relay.Process.Channel.{add_all-here, keep_remaining_acks}
use wordle.Relay.Middleware.Delivers.{default_network, process_channel_run, split_sequences}

module _ {Net : Type 0} (cancelled : Net → Option Error) (is_zero_height : Height → Bool)
    (zero_law : (h : Height)
      → is_zero_height h ≡ ((h.revision_number == 0) && (h.revision_height == 0)))
    (too_big : ℤ) where
  abbrev network : Network
  network = default_network cancelled is_zero_height zero_law too_big

  abbrev split : Bool → Context → List PacketInfo → List ℕ
  split = split_sequences cancelled is_zero_height zero_law too_big

  -- The handler in which the packet alone waits.
  abbrev with_packet : Context → PacketInfo → RelayHandler → RelayHandler
  with_packet ctx p h = record h { pending_packets = (channel_id p, enqueued ctx p ∷ []) ∷ [] }

  queue_idle :
      (ctx : Context) (p : PacketInfo) (h : RelayHandler)
      → h.pending_packets ≡ []
      → IsComplete p
      → is_packet_timed_out network ctx p ≡ false
      → queue_packet network ctx p h ≡ (ok tt, with_packet ctx p h)
  unfolding queue_packet check_order has_sequence behind_last lookup put
  queue_idle ctx p h idle complete f = rw (validate_packet-ok p complete, f, idle) refl

  -- What the run over the channel of a packet that has not timed out leaves.
  abbrev relayed : Context → PacketInfo → RelayHandler → RelayHandler
  relayed ctx p h = keep_remaining (channel_id p) [] (
      after (channel_id p) (p.sequence ∷ []) [] (record h {
        pending_packets =
            put (channel_id p) (enqueued ctx p ∷ []) (with_packet ctx p h).pending_packets;
      }))

  split_one :
      (ctx : Context) (p : PacketInfo)
      → is_packet_timed_out network ctx p ≡ false
      → (split false ctx (enqueued ctx p ∷ []) ≡ p.sequence ∷ [])
        × (split true ctx (enqueued ctx p ∷ []) ≡ [])
  unfolding split_sequences
  split_one ctx p f =
      let same : is_packet_timed_out network ctx (enqueued ctx p)
          ≡ is_packet_timed_out network ctx p =
        unfold is_packet_timed_out in refl in
      (rw (same, f) refl, rw (same, f) refl)

  run_one :
      (ctx : Context) (p : PacketInfo) (h : RelayHandler) (n : Net)
      → cancelled n ≡ none
      → is_packet_timed_out network ctx p ≡ false
      → process_channel_packets network false ctx
          (channel_id p)
          (enqueued ctx p ∷ [])
          (with_packet ctx p h, n)
        ≡ (ok tt, (relayed ctx p h, n))
  unfolding sort_packets insert_packet
  run_one ctx p h n alive f =
      let (kept, none_lost) = split_one ctx p f in
      process_channel_run cancelled is_zero_height zero_law too_big ctx (channel_id p)
        (enqueued ctx p ∷ []) (with_packet ctx p h) n alive
      ∙ rw (kept, none_lost) refl

  nothing_waits :
      (ctx : Context) (p : PacketInfo) (h : RelayHandler) (c : Bytes)
      → waiting (relayed ctx p h) c ≡ []
  unfolding keep_remaining put lookup
  nothing_waits ctx p h c = ground (
    arith,
    beq_refl (channel_id p),
    lookup-discard (channel_id p) c
        (put (channel_id p) (enqueued ctx p ∷ []) (with_packet ctx p h).pending_packets),
  )

  -- While the context lives, a complete packet that has not timed out is queued into a new handler
  -- without pending packets, and the ProcessPackets that follows succeeds: it puts the packet's number
  -- behind the acknowledgements of its channel, adds no timeout, and leaves no packet waiting.
  pub process_packets-queue_packet :
      (group : Group (World network)) (ctx : Context) (p : PacketInfo) (h : RelayHandler) (n : Net)
      → cancelled n ≡ none
      → h.pending_packets ≡ []
      → IsComplete p
      → is_packet_timed_out network ctx p ≡ false
      → (queued : RelayHandler) × (queue_packet network ctx p h ≡ (ok tt, queued))
        × (h' : RelayHandler) × (process_packets network group ctx (queued, n) ≡ (ok tt, (h', n)))
        × (or_empty (lookup (channel_id p) h'.acks)
            ≡ or_empty (lookup (channel_id p) h.acks) ++ p.sequence ∷ [])
        × (h'.timeouts ≡ h.timeouts)
        × ((c : Bytes) → waiting h' c ≡ [])
  unfolding process_packets goroutines
  process_packets-queue_packet group ctx p h n alive idle complete f =
      let (ha, ht) = keep_remaining_acks (channel_id p) [] (
        after (channel_id p) (p.sequence ∷ []) [] (record h {
          pending_packets =
              put (channel_id p) (enqueued ctx p ∷ []) (with_packet ctx p h).pending_packets;
        })) in
      (
        with_packet ctx p h,
        queue_idle ctx p h idle complete f,
        relayed ctx p h,
        group.wait_one
              (λ stop.
                process_channel_packets network stop ctx (channel_id p) (enqueued ctx p ∷ []))
              (with_packet ctx p h, n)
            ∙ run_one ctx p h n alive f,
        ap (λ m. or_empty (lookup (channel_id p) m)) ha
            ∙ add_all-here (channel_id p) (p.sequence ∷ []) h.acks,
        ht,
        nothing_waits ctx p h,
      )
