-- ===== src/Relay/Queue/Meaning.antt =====
-- What the checks of QueuePacket mean for the packet and for the packets that wait in its channel.
use wordle.Prelude.{
  ℕ, ◌<◌, ◌≤◌, ◌≡◌, ◌≢◌, ◌⊎◌, inl, inr, refl, arith, Bool, true, false, Option, none, some, List,
  Bytes, [], ◌∷◌, ◌++◌, beq, if◌then◌else◌, Bool-cases, All, ◌==◌, ==_iff,
}
use wordle.Prelude.Maps.{put, lookup-put}
use wordle.Exec
use wordle.Exec.{Reply, ok, err, panic, Error}
use wordle.Relay.{packet_pending, PacketInfo, RelayHandler, Context, Network}
use wordle.Relay.Expiry.{is_packet_timed_out}
use wordle.Relay.Queue.{
  is_empty, is_nil, validate_packet, channel_id, has_sequence, behind_last, check_order, enqueued,
  waiting, queue_packet,
}
use wordle.Relay.Queue.Laws.{IsOrdered, IsQueue}

-- A packet with a number, both ends named, and a payload, be it an empty one.
pub record IsComplete (packet : PacketInfo) : Type 0 where
  pub sequence : packet.sequence ≢ 0
  pub source_port : packet.source_port ≢ []
  pub source_chan : packet.source_chan ≢ []
  pub source_chain_id : packet.source_chain_id ≢ []
  pub dest_port : packet.dest_port ≢ []
  pub dest_chan : packet.dest_chan ≢ []
  pub dest_chain_id : packet.dest_chain_id ≢ []
  pub payload : packet.payload ≢ none

-- One of the packets has the property.
abbrev pub Has : (PacketInfo → Type 0) → List PacketInfo → Type 0
Has P [] = ⊥
Has P (p ∷ ps) = P p ⊎ Has P ps

-- What is wrong with a packet that is refused, by the error that refuses it.
pub data Wrong (network : Network) (ctx : Context) (packet : PacketInfo) (queue : List PacketInfo)
    : Error → Type 0 where
  no_sequence : packet.sequence ≡ 0 → Wrong network ctx packet queue Exec.bad_sequence
  no_source_port : packet.source_port ≡ [] → Wrong network ctx packet queue Exec.missing_source_port
  no_source_channel :
      packet.source_chan ≡ [] → Wrong network ctx packet queue Exec.missing_source_channel
  no_source_chain :
      packet.source_chain_id ≡ [] → Wrong network ctx packet queue Exec.missing_source_chain
  no_dest_port : packet.dest_port ≡ [] → Wrong network ctx packet queue Exec.missing_dest_port
  no_dest_channel : packet.dest_chan ≡ [] → Wrong network ctx packet queue Exec.missing_dest_channel
  no_dest_chain : packet.dest_chain_id ≡ [] → Wrong network ctx packet queue Exec.missing_dest_chain
  no_data : packet.payload ≡ none → Wrong network ctx packet queue Exec.missing_data
  expired :
      is_packet_timed_out network ctx packet ≡ true
      → Wrong network ctx packet queue Exec.packet_expired
  known :
      Has (λ q. q.sequence ≡ packet.sequence) queue
      → Wrong network ctx packet queue Exec.duplicate_packet
  behind :
      Has (λ q. packet.sequence ≤ q.sequence) queue
      → Wrong network ctx packet queue Exec.packet_out_of_order

is_empty-false : (bs : Bytes) → bs ≢ [] → is_empty bs ≡ false
is_empty-false [] n = absurd (n refl)
is_empty-false (b ∷ bs) n = refl

is_nil-false : (payload : Option Bytes) → payload ≢ none → is_nil payload ≡ false
is_nil-false none n = absurd (n refl)
is_nil-false (some bs) n = refl

-- A complete packet passes.
pub validate_packet-ok : (packet : PacketInfo) → IsComplete packet → validate_packet packet ≡ ok tt
unfolding validate_packet
validate_packet-ok packet c =
    let numbered : (packet.sequence == 0) ≡ false = ground (arith, c.sequence) in
    rw
      (
        numbered,
        is_empty-false packet.source_port c.source_port,
        is_empty-false packet.source_chan c.source_chan,
        is_empty-false packet.source_chain_id c.source_chain_id,
        is_empty-false packet.dest_port c.dest_port,
        is_empty-false packet.dest_chan c.dest_chan,
        is_empty-false packet.dest_chain_id c.dest_chain_id,
        is_nil-false packet.payload c.payload,
      )
      refl

has_sequence-Has :
    (n : ℕ) (ps : List PacketInfo) → has_sequence n ps ≡ true → Has (λ q. q.sequence ≡ n) ps
unfolding has_sequence
has_sequence-Has n [] h = absurd (cc)
has_sequence-Has n (p ∷ ps) h = ground (arith, has_sequence-Has n ps)

behind_last-Has :
    (n : ℕ) (ps : List PacketInfo) → behind_last n ps ≡ true → Has (λ q. n ≤ q.sequence) ps
unfolding behind_last
behind_last-Has n [] h = absurd (cc)
behind_last-Has n (p ∷ []) h = inl (ground arith)
behind_last-Has n (p ∷ q ∷ ps) h = inr (behind_last-Has n (q ∷ ps) h)

-- In a rising channel a packet that is not behind the last one is above all.
behind_last-All :
    (n : ℕ) (ps : List PacketInfo)
    → IsOrdered ps
    → behind_last n ps ≡ false
    → All (λ (q : PacketInfo). q.sequence < n) ps
unfolding behind_last
behind_last-All n [] o h = tt
behind_last-All n (p ∷ []) o h = (ground arith, tt)
behind_last-All n (p ∷ q ∷ ps) (lt, o) h =
    let (below, more) = behind_last-All n (q ∷ ps) o h in (omega (arith, lt, below), (below, more))

module _ (network : Network) (ctx : Context) (packet : PacketInfo) (queue : List PacketInfo) where
  abbrev Judged : Reply (Unit {0}) → Type 0 → Type 0
  Judged r Fine =
      ((e : Error) × (r ≡ err e) × Wrong network ctx packet queue e) ⊎ ((r ≡ ok tt) × Fine)

  -- A check with its error: what it means where it fails, and the checks behind it where it does not.
  checked :
      (b : Bool) (e : Error) (r : Reply (Unit {0})) (Fine : Type 0)
      → (b ≡ true → Wrong network ctx packet queue e)
      → (b ≡ false → Judged r Fine)
      → Judged (if b then err e else r) Fine
  checked true e r Fine fails passes = inl (e, refl, fails refl)
  checked false e r Fine fails passes = passes refl

  present :
      (bs : Bytes) (e : Error) (r : Reply (Unit {0})) (Fine : Type 0)
      → (bs ≡ [] → Wrong network ctx packet queue e)
      → (bs ≢ [] → Judged r Fine)
      → Judged (if is_empty bs then err e else r) Fine
  present [] e r Fine fails passes = inl (e, refl, fails refl)
  present (b ∷ bs) e r Fine fails passes = passes (λ x. absurd (cc))

  with_payload :
      (payload : Option Bytes) (Fine : Type 0)
      → (payload ≡ none → Wrong network ctx packet queue Exec.missing_data)
      → (payload ≢ none → Fine)
      → Judged (if is_nil payload then err Exec.missing_data else ok tt) Fine
  with_payload none Fine fails passes = inl (Exec.missing_data, refl, fails refl)
  with_payload (some bs) Fine fails passes = inr (refl, passes (λ x. absurd (cc)))

  validate_packet-Judged : Judged (validate_packet packet) (IsComplete packet)
  unfolding validate_packet
  validate_packet-Judged =
      checked (packet.sequence == 0) _ _ _ (λ h. no_sequence ((==_iff packet.sequence 0).0 h))
        λ n. present packet.source_port _ _ _ no_source_port λ a.
          present packet.source_chan _ _ _ no_source_channel λ b.
            present packet.source_chain_id _ _ _ no_source_chain λ c.
              present packet.dest_port _ _ _ no_dest_port λ d.
                present packet.dest_chan _ _ _ no_dest_channel λ e.
                  present packet.dest_chain_id _ _ _ no_dest_chain λ f.
                    with_payload packet.payload _ no_data λ g. record {
                      sequence = λ z. ground (arith, n, z);
                      source_port = a;
                      source_chan = b;
                      source_chain_id = c;
                      dest_port = d;
                      dest_chan = e;
                      dest_chain_id = f;
                      payload = g;
                    }

  check_order-Judged :
      IsOrdered queue
      → Judged
          (check_order packet.sequence queue)
          (All (λ (q : PacketInfo). q.sequence < packet.sequence) queue)
  unfolding check_order
  check_order-Judged o =
      checked (has_sequence packet.sequence queue) _ _ _
        (λ h. known (has_sequence-Has packet.sequence queue h))
        λ _.
          checked (behind_last packet.sequence queue) _ _ _
            (λ h. behind (behind_last-Has packet.sequence queue h))
            λ h. inr (refl, behind_last-All packet.sequence queue o h)

waiting-put :
    (channel c : Bytes) (ps : List PacketInfo) (h : RelayHandler)
    → waiting (record h { pending_packets = put channel ps h.pending_packets }) c
      ≡ (if beq channel c then ps else waiting h c)
waiting-put channel c ps h = ground (arith, lookup-put channel c ps h.pending_packets)

module _ (network : Network) where
  -- Where the packets of each channel stand in the rising order of their sequence numbers, QueuePacket
  -- refuses a packet with an error that names what is wrong with it, and the handler stays as it is; or
  -- the packet is complete, has not expired, and has a greater number than all that wait in its
  -- channel, and it is put behind them, pending since the block's time. The other channels, the
  -- acknowledgements and the timeouts stay as they are.
  pub queue_packet_decides :
      (ctx : Context) (packet : PacketInfo) (h : RelayHandler)
      → IsQueue h
      → ((e : Error) × (queue_packet network ctx packet h ≡ (err e, h))
          × Wrong network ctx packet (waiting h (channel_id packet)) e)
        ⊎ (IsComplete packet
            × (is_packet_timed_out network ctx packet ≡ false)
            × All (λ (q : PacketInfo). q.sequence < packet.sequence) (waiting h (channel_id packet))
            × (h' : RelayHandler) × (queue_packet network ctx packet h ≡ (ok tt, h'))
            × ((channel : Bytes)
                → waiting h' channel ≡ (
                    if beq (channel_id packet) channel
                    then waiting h (channel_id packet)
                      ++ record packet { status = packet_pending; first_attempt = ctx.block_time }
                        ∷ []
                    else waiting h channel))
            × (h'.acks ≡ h.acks)
            × (h'.timeouts ≡ h.timeouts))
  unfolding queue_packet
  queue_packet_decides ctx packet h o =
      let queue = waiting h (channel_id packet) in
      elim (validate_packet-Judged network ctx packet queue) [
        | inl (e, v, wrong) ↦ inl (e, rw v, wrong)
        | inr (v, complete) ↦ elim (Bool-cases (is_packet_timed_out network ctx packet)) [
          | inl t ↦ inl (Exec.packet_expired, rw (v, t), expired t)
          | inr t ↦ elim (check_order-Judged network ctx packet queue (o (channel_id packet))) [
            | inl (e, c, wrong) ↦ inl (e, rw (v, t, c), wrong)
            | inr (c, above) ↦ inr (
              complete,
              t,
              above,
              record h {
                pending_packets =
                    put (channel_id packet) (queue ++ enqueued ctx packet ∷ []) h.pending_packets;
              },
              rw (v, t, c),
              (λ channel.
                  waiting-put (channel_id packet) channel (queue ++ enqueued ctx packet ∷ []) h),
              refl,
              refl,
            )
          ]
        ]
      ]
