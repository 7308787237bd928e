-- ===== src/Relay/Process/Channel.antt =====
-- processChannelPackets as a whole: where the packets of a channel go, and what it leaves alone.
use mathlib.Core.List.{Perm, append_assoc, append-nil}
use mathlib.Core.List.Perm
use wordle.Prelude.{
  ℕ, ◌≡◌, refl, ap, ◌∙◌, sym, Bool, Option, none, Bytes, List, [], ◌∷◌, ◌++◌, Bool-cases, inl, inr,
  beq, beq_refl, if◌then◌else◌, ltb,
}
use wordle.Prelude.Maps.{Map, lookup, put, discard, lookup-put, lookup-discard}
use wordle.Exec.{Reply, ok, continue-ok, modify}
use wordle.Relay.{PacketInfo, RelayHandler, Context, Network}
use wordle.Relay.Monitor.{or_empty}
use wordle.Relay.Queue.{waiting}
use wordle.Relay.Process.{
  add_to, World, process_loop, process_channel_packets, sort_packets, insert_packet, keep_remaining,
}
use wordle.Relay.Process.Conserves.{sequences, add_all, after, process_loop-Ran}

insert_packet-perm :
    (p : PacketInfo) (qs : List PacketInfo)
    → Perm (sequences (insert_packet p qs)) (p.sequence ∷ sequences qs)
unfolding insert_packet
insert_packet-perm p [] = Perm.refl _
insert_packet-perm p (q ∷ qs) = elim (Bool-cases (ltb q.sequence p.sequence)) [
  | inl t ↦ rw t (
      Perm.trans (Perm.cons q.sequence (insert_packet-perm p qs))
        (Perm.swap p.sequence q.sequence (sequences qs)))
  | inr f ↦ rw f (Perm.refl _)
]

sort_packets-perm : (ps : List PacketInfo) → Perm (sequences (sort_packets ps)) (sequences ps)
unfolding sort_packets
sort_packets-perm [] = Perm.refl []
sort_packets-perm (p ∷ ps) =
    Perm.trans (insert_packet-perm p (sort_packets ps))
      (Perm.cons p.sequence (sort_packets-perm ps))

pub add_all-here :
    (channel : Bytes) (ns : List ℕ) (m : Map (List ℕ))
    → or_empty (lookup channel (add_all channel ns m)) ≡ or_empty (lookup channel m) ++ ns
add_all-here channel [] m = sym (append-nil _)
add_all-here channel (n ∷ ns) m =
    add_all-here channel ns (add_to channel n m)
    ∙ rw (lookup-put channel channel (or_empty (lookup channel m) ++ n ∷ []) m, beq_refl channel)
        (append_assoc (or_empty (lookup channel m)) (n ∷ []) ns)

-- What a map holds under the other keys.
abbrev pub besides : {V : Type 0} → Bytes → Map V → Bytes → Option V
besides channel m j = if beq channel j then none else lookup j m

pub besides-put :
    {V : Type 0} (channel j : Bytes) (v : V) (m : Map V)
    → besides channel (put channel v m) j ≡ besides channel m j
besides-put channel j v m = elim (Bool-cases (beq channel j)) [
  | inl t ↦ rw t
  | inr f ↦ rw (f, lookup-put channel j v m, f)
]

besides-discard :
    {V : Type 0} (channel j : Bytes) (m : Map V)
    → besides channel (discard channel m) j ≡ besides channel m j
besides-discard channel j m = elim (Bool-cases (beq channel j)) [
  | inl t ↦ rw t
  | inr f ↦ rw (f, lookup-discard channel j m, f)
]

pub besides-add_all :
    (channel j : Bytes) (ns : List ℕ) (m : Map (List ℕ))
    → besides channel (add_all channel ns m) j ≡ besides channel m j
besides-add_all channel j [] m = refl
besides-add_all channel j (n ∷ ns) m =
    besides-add_all channel j ns (add_to channel n m)
    ∙ besides-put channel j (or_empty (lookup channel m) ++ n ∷ []) m

pub keep_remaining-waiting :
    (channel : Bytes) (rest : List PacketInfo) (h : RelayHandler)
    → waiting (keep_remaining channel rest h) channel ≡ rest
unfolding keep_remaining
keep_remaining-waiting channel [] h =
    rw (lookup-discard channel channel h.pending_packets, beq_refl channel)
keep_remaining-waiting channel (p ∷ ps) h =
    rw (lookup-put channel channel (p ∷ ps) h.pending_packets, beq_refl channel)

pub besides-keep_remaining :
    (channel j : Bytes) (rest : List PacketInfo) (h : RelayHandler)
    → besides channel (keep_remaining channel rest h).pending_packets j
      ≡ besides channel h.pending_packets j
unfolding keep_remaining
besides-keep_remaining channel j [] h = besides-discard channel j h.pending_packets
besides-keep_remaining channel j (p ∷ ps) h = besides-put channel j (p ∷ ps) h.pending_packets

pub keep_remaining_acks :
    (channel : Bytes) (rest : List PacketInfo) (h : RelayHandler)
    → ((keep_remaining channel rest h).acks ≡ h.acks)
      × ((keep_remaining channel rest h).timeouts ≡ h.timeouts)
unfolding keep_remaining
keep_remaining_acks channel [] h = (refl, refl)
keep_remaining_acks channel (p ∷ ps) h = (refl, refl)

module _ (network : Network) where
  open network use {Net}

  -- A run over the packets of a channel that succeeds puts the sequence number of each of them in
  -- exactly one place: behind the acknowledgements of the channel, behind its timeouts, or among the
  -- packets that wait for the next run. The other channels stay as they are.
  pub process_channel_conserves :
      (stop : Bool) (ctx : Context) (channel : Bytes) (packets : List PacketInfo)
      (h h' : RelayHandler) (n n' : Net)
      → process_channel_packets network stop ctx channel packets (h, n) ≡ (ok tt, (h', n'))
      → (acked : List ℕ) × (lost : List ℕ) × (or_empty (lookup channel h'.acks)
          ≡ or_empty (lookup channel h.acks) ++ acked)
        × (or_empty (lookup channel h'.timeouts) ≡ or_empty (lookup channel h.timeouts) ++ lost)
        × Perm (sequences packets) (acked ++ (lost ++ sequences (waiting h' channel)))
        × ((j : Bytes)
            → (besides channel h'.acks j ≡ besides channel h.acks j)
              × (besides channel h'.timeouts j ≡ besides channel h.timeouts j)
              × (besides channel h'.pending_packets j ≡ besides channel h.pending_packets j))
  unfolding process_channel_packets
  process_channel_conserves stop ctx channel packets h h' n n' e =
      let h₀ : RelayHandler = record h {
        pending_packets = put channel (sort_packets packets) h.pending_packets;
      } in
      let run : Reply (List PacketInfo) × World network =
        process_loop network stop ctx channel (sort_packets packets) (h₀, n) in
      let (rest, r, e₁) =
        continue-ok {A = List PacketInfo} run.0
          (λ rest. modify (λ (w : World network). (keep_remaining channel rest w.0, w.1))) run.1
          (h', n') tt e in
      let (acked, lost, s, q) =
        process_loop-Ran network stop ctx channel (sort_packets packets) rest h₀ run.1.0 n run.1.1
          (ap (λ t. (t, run.1)) r) in
      let final : h' ≡ keep_remaining channel rest (after channel acked lost h₀) =
        ap (λ t. t.1.0) (sym e₁) ∙ ap (keep_remaining channel rest) s in
      let (ha, ht) = keep_remaining_acks channel rest (after channel acked lost h₀) in
      (
        acked,
        lost,
        ap (λ (t : RelayHandler). or_empty (lookup channel t.acks)) final
            ∙ ap (λ m. or_empty (lookup channel m)) ha
            ∙ add_all-here channel acked h.acks,
        ap (λ (t : RelayHandler). or_empty (lookup channel t.timeouts)) final
            ∙ ap (λ m. or_empty (lookup channel m)) ht
            ∙ add_all-here channel lost h.timeouts,
        rw (final, keep_remaining-waiting channel rest (after channel acked lost h₀))
            (Perm.trans (Perm.symm (sort_packets-perm packets)) q),
        (λ j. (
          ap (λ (t : RelayHandler). besides channel t.acks j) final
              ∙ ap (λ m. besides channel m j) ha
              ∙ besides-add_all channel j acked h.acks,
          ap (λ (t : RelayHandler). besides channel t.timeouts j) final
              ∙ ap (λ m. besides channel m j) ht
              ∙ besides-add_all channel j lost h.timeouts,
          ap (λ (t : RelayHandler). besides channel t.pending_packets j) final
              ∙ besides-keep_remaining channel j rest (after channel acked lost h₀)
              ∙ besides-put channel j (sort_packets packets) h.pending_packets,
        )),
      )
