-- ===== src/Relay/Expiry.antt =====
-- isPacketTimedOut: a timeout height or timestamp that the block has reached.
pub mod Laws
use wordle.Prelude.{ℕ, ◌^◌, ◌%◌, Bool, true, false, ◌||◌, ◌&&◌, not, ◌==◌, if◌then◌else◌}
use wordle.Prelude.Int.{ℤ, pos, signed, leb_ℤ, wrap}
use wordle.Relay.{PacketInfo, Context, Network}

module _ (network : Network) where
  open network use {is_zero_height}

  -- `int64(…)` of a uint64 keeps its bits.
  unfoldable pub is_packet_timed_out : Context → PacketInfo → Bool
  is_packet_timed_out ctx packet =
      if is_zero_height packet.timeout_height && (packet.timeout_timestamp == 0)
      then false
      else if not (is_zero_height packet.timeout_height)
          && leb_ℤ (signed 64 packet.timeout_height.revision_height) ctx.block_height
      then true
      else not (packet.timeout_timestamp == 0)
        && leb_ℤ (signed 64 packet.timeout_timestamp) (wrap 64 ctx.block_time)
