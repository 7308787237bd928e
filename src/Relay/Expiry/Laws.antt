-- ===== src/Relay/Expiry/Laws.antt =====
-- What isPacketTimedOut decides.
use wordle.Prelude.{ℕ, ◌^◌, ◌<◌, ◌≤◌, ◌≡◌, ◌≢◌, ◌⊎◌, ◌↔◌, arith, true, false}
use wordle.Prelude.Int.{ℤ, pos}
use wordle.Relay.{PacketInfo, Network}
use wordle.Relay.Expiry.{is_packet_timed_out}

module _ (network : Network) where
  open network use {is_zero_height, is_zero_height_lem}

  -- For a block and timeouts below 2 ^ 63, a packet has timed out exactly when it has a timeout height
  -- that the block has reached or a timestamp that the block's time has reached.
  pub is_packet_timed_out_iff :
      (height time : ℕ) (packet : PacketInfo)
      → height < 2 ^ 63
      → time < 2 ^ 63
      → packet.timeout_height.revision_height < 2 ^ 63
      → packet.timeout_timestamp < 2 ^ 63
      → (is_packet_timed_out network
            (record { block_height = pos height; block_time = pos time })
            packet
          ≡ true)
        ↔ (((is_zero_height packet.timeout_height ≡ false)
              × (packet.timeout_height.revision_height ≤ height))
            ⊎ ((packet.timeout_timestamp ≢ 0) × (packet.timeout_timestamp ≤ time)))
  unfolding is_packet_timed_out
  is_packet_timed_out_iff height time packet hh ht hp hs = ground arith

  -- A timeout timestamp from 2 ^ 63 on reads as a negative int64: such a packet has timed out at every
  -- time since 1970 of an int64.
  pub late_timestamps_time_out :
      (height : ℤ) (time : ℕ) (packet : PacketInfo)
      → time < 2 ^ 63
      → 2 ^ 63 ≤ packet.timeout_timestamp
      → packet.timeout_timestamp < 2 ^ 64
      → is_packet_timed_out network (record { block_height = height; block_time = pos time }) packet
        ≡ true
  unfolding is_packet_timed_out
  late_timestamps_time_out height time packet ht lo hi = ground arith
