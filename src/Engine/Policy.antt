-- ===== src/Engine/Policy.antt =====
-- `jb_insert` and `stream_policy` of michi_audio.c: what the engine does with an accepted packet.
pub mod Window
pub mod Counters
use michi_music_stream.Prelude.{
  ℕ, ◌+◌, ◌-◌, ◌*◌, ◌/◌, ◌%◌, ◌^◌, Bool, true, false, not, ◌&&◌, ◌||◌, Option, none, some, List, [],
  ◌∷◌, EspErr, is_ok, ltb, leb, ◌==◌, if◌then◌else◌,
}
use michi_music_stream.Prelude.Int.{ℤ, pos, negsuc, ltb_ℤ}
use michi_music_stream.Rtp.Distance.{distance}
use michi_music_stream.Rtp.Guard.{
  Packet, GuardSession, Verdict, accepted, malformed, pt_mismatch, ssrc_mismatch, source_mismatch,
  size_mismatch, parse, classify,
}
use michi_music_stream.Rtp.Loss.{lost_delta}
use michi_music_stream.JitterBuffer.{Jb, InsertResult, flush}
use michi_music_stream.JitterBuffer.Insert.{insert_packet}
use michi_music_stream.Engine.Clock.{
  RtpClock, RtpJitter, clock_reset, clock_feed, clock_delta, jitter_reset, jitter_feed,
  clock_offset_us,
}
use michi_music_stream.Engine.{Metrics, Stream, Engine, sample_rate, add32, metrics_live}

-- What `jb_insert` answers and counts for a verdict of the jitter buffer.
insert_answer : InsertResult → EspErr
insert_answer InsertResult.ok = EspErr.ok
insert_answer InsertResult.duplicate = EspErr.invalid_state
insert_answer InsertResult.overrun_dropped = EspErr.no_mem
insert_answer InsertResult.overrun_evicted = EspErr.ok

counts_overrun : InsertResult → Bool
counts_overrun InsertResult.overrun_dropped = true
counts_overrun InsertResult.overrun_evicted = true
counts_overrun _ = false

unfoldable pub jb_insert : ℕ → Packet → Stream → Metrics → EspErr × Stream × Metrics
unfolding insert_answer counts_overrun
jb_insert playhead pkt s m =
    let (res, evicted, jb') =
      insert_packet s.jb playhead pkt.seq pkt.timestamp (some pkt.payload) pkt.payload_len in
    (
      insert_answer res,
      record s { jb = jb' },
      if counts_overrun res then record m { overruns = add32 m.overruns 1 } else m,
    )

-- The branch of a paused session.
policy_paused : Packet → Stream → Metrics → Bool × Stream × Metrics
policy_paused pkt s m =
    let lost = lost_delta s.last_seq pkt.seq in
    (
      true,
      if ltb_ℤ (pos 0) (distance pkt.seq s.last_seq) then record s { last_seq = pkt.seq } else s,
      if lost == 0 then m else record m { lost = add32 m.lost lost },
    )

-- The playhead, the reference times and the estimators of a new epoch of the stream.
seeded_at : Packet → ℕ → Stream → Stream
seeded_at pkt now s = record s {
  stream_seeded = true;
  playhead = pkt.seq;
  last_seq = pkt.seq;
  base_ts = pkt.timestamp;
  base_time_us = now;
  rtp_clock = clock_feed clock_reset pkt.timestamp;
  rtp_jitter = jitter_feed jitter_reset now pkt.timestamp sample_rate;
}

-- The branches for the first packet and for a discontinuity: start anew at the packet.
policy_seed : Packet → ℕ → Stream → Metrics → Bool × Stream × Metrics
unfolding seeded_at
policy_seed pkt now s m =
    let (err, s', m') =
      jb_insert pkt.seq pkt (seeded_at pkt now s) (record m { provisionally_missing = 0 }) in
    (true, s', m')

policy_resync : Packet → ℕ → Stream → Metrics → Bool × Stream × Metrics
unfolding policy_seed
policy_resync pkt now s m = policy_seed pkt now (record s { jb = flush s.jb; last_played_ts = 0 }) m

-- The end of an accepted arrival: provisional losses, reordering and the high-water mark.
policy_accepted : Packet → Stream → Metrics → Bool × Stream × Metrics
policy_accepted pkt s m =
    let ahead = ltb_ℤ (pos 0) (distance pkt.seq s.last_seq) in
    let missing = lost_delta s.last_seq pkt.seq in
    let found = add32 m.provisionally_missing missing in
    (
      true,
      if ahead then record s { last_seq = pkt.seq } else s,
      if ahead
          then record m { provisionally_missing = found }
          else record m { reordered = add32 m.reordered 1; provisionally_missing = found - 1 },
    )

policy_refused : EspErr → Stream → Metrics → Bool × Stream × Metrics
policy_refused EspErr.invalid_state s m = (false, s, record m { duplicate = add32 m.duplicate 1 })
policy_refused _ s m = (false, s, m)

policy_arrival : Packet → Stream → Metrics → Bool × Stream × Metrics
unfolding policy_accepted policy_refused
policy_arrival pkt s m =
    let (err, s', m') = jb_insert s.playhead pkt s m in
    if is_ok err then policy_accepted pkt s' m' else policy_refused err s' m'

-- `stream_policy`, with `max_packets` for MICHI_AUDIO_MAX_PACKETS, the value of `s_paused` and the
-- time of the call.
unfoldable pub stream_policy : ℕ → Bool → ℕ → Packet → Stream → Metrics → Bool × Stream × Metrics
unfolding policy_paused policy_seed policy_resync policy_arrival
stream_policy max_packets paused now pkt s m =
    let diff_p = distance pkt.seq s.playhead in
    if paused
    then policy_paused pkt s m
    else if not s.stream_seeded
    then policy_seed pkt now s m
    else if ltb_ℤ (pos max_packets) diff_p
    then policy_resync pkt now s m
    else if ltb_ℤ diff_p (pos 0)
    then (false, s, record m { late = add32 m.late 1 })
    else policy_arrival pkt s m
