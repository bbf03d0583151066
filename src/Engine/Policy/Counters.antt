-- ===== src/Engine/Policy/Counters.antt =====
-- `stream_policy` leaves the counters of the datagram guard alone.
use michi_music_stream.Prelude.{arith, ℕ, ◌≡◌, refl, Bool}
use michi_music_stream.Rtp.Guard.{Packet}
use michi_music_stream.Engine.{Metrics, Stream}
use michi_music_stream.Engine.Policy.{jb_insert, stream_policy}

pub record SameGuardCounters (m m' : Metrics) : Type 0 where
  pub received : m'.received ≡ m.received
  pub malformed : m'.drops_malformed ≡ m.drops_malformed
  pub pt_other : m'.drops_pt_other ≡ m.drops_pt_other
  pub ssrc_filtered : m'.drops_ssrc_filtered ≡ m.drops_ssrc_filtered
  pub source_ip : m'.drops_source_ip ≡ m.drops_source_ip
  pub payload_geometry : m'.drops_payload_geometry ≡ m.drops_payload_geometry

-- The counters that the policy writes.
same_counters :
    (m : Metrics) (lost provisionally_missing late duplicate reordered overruns : ℕ)
    → SameGuardCounters m (record m {
      lost = lost;
      provisionally_missing = provisionally_missing;
      late = late;
      duplicate = duplicate;
      reordered = reordered;
      overruns = overruns;
    })
same_counters m lost provisionally_missing late duplicate reordered overruns = record {
  received = refl;
  malformed = refl;
  pt_other = refl;
  ssrc_filtered = refl;
  source_ip = refl;
  payload_geometry = refl;
}

pub stream_policy-SameGuardCounters :
    (max_packets : ℕ) (paused : Bool) (now : ℕ) (pkt : Packet) (s : Stream) (m : Metrics)
    → SameGuardCounters m (stream_policy max_packets paused now pkt s m).2
unfolding stream_policy jb_insert
stream_policy-SameGuardCounters max_packets paused now pkt s m = ground arith
