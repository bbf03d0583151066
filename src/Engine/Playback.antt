-- ===== src/Engine/Playback.antt =====
-- The playing side of the audio engine in michi_audio.c: `prefill_target`, `session_fill`,
-- `write_silence`, `gap_samples` and `session_drain`. The output pipeline, the clock and the flag
-- that other tasks clear are the record `Player` of operations over a state `W`; each may change
-- that state.
pub mod Window
pub mod Gap
pub mod Silence
use michi_music_stream.Prelude.{
  ℕ, zero, suc, ◌+◌, ◌-◌, ◌*◌, ◌/◌, ◌%◌, ◌^◌, min, Bool, true, false, not, ◌&&◌, ◌||◌, Option, none,
  some, List, [], ◌∷◌, ltb, leb, ◌==◌, if◌then◌else◌, take, drop, replicate,
}
use michi_music_stream.Rtp.Distance.{offset}
use michi_music_stream.Rtp.Guard.{payload_bytes}
use michi_music_stream.Rtp.BufferPolicy.{prefill_target_ext}
use michi_music_stream.JitterBuffer.{Entry, Slot, Jb, oldest}
use michi_music_stream.JitterBuffer.Insert.{release, discard_stale}
use michi_music_stream.Engine.{Metrics, Stream, Engine, add32, metrics_live}
use michi_music_stream.Engine.Recv.{Input, session_recv}

-- `michi_audio_output_write(…) == ESP_OK`, `s_session_run` and `esp_timer_get_time`.
pub record Player (W : Type 0) : Type 0 where
  pub output_write : List ℕ → W → Bool × W
  pub session_run : W → Bool × W
  pub timer_us : W → ℕ × W

-- What one turn of the loop of `session_fill` sees: the two flags, the clock, and the receive.
pub record FillRound : Type 0 where
  pub running : Bool
  pub paused : Bool
  pub now_ms : ℕ
  pub input : Input

-- `prefill_target`, with `prefill_ms` for CONFIG_MICHI_AUDIO_PREFILL_MS.
unfoldable pub target_packets : ℕ → ℕ → Stream → ℕ
target_packets max_packets prefill_ms s =
    prefill_target_ext (if ltb 0 s.buffer_ms then s.buffer_ms else prefill_ms) max_packets

-- `session_fill` over the turns of its loop; it returns before a turn whose test fails.
unfoldable pub session_fill : ℕ → ℕ → ℕ → ℕ → List FillRound → Engine → Engine
session_fill max_packets prefill_ms deadline_ms start_ms [] e = e
session_fill max_packets prefill_ms deadline_ms start_ms (r ∷ rounds) e =
    let rest =
      session_fill max_packets prefill_ms deadline_ms start_ms rounds
        (session_recv max_packets r.input e) in
    if not (r.running && e.run)
      || (r.paused || leb (target_packets max_packets prefill_ms e.stream) e.stream.jb.count)
    then e
    else if leb deadline_ms ((r.now_ms + 2 ^ 32 - start_ms) % 2 ^ 32)
    then e
    else rest

-- Stereo samples of two bytes.
abbrev pub sample_bytes : ℕ
sample_bytes = 4

module _ {W : Type 0} (p : Player W) where
  -- The loop of `write_silence` with `rounds` turns left, which are enough (Silence).
  unfoldable pub silence_rounds : ℕ → ℕ → ℕ → W → Bool × W
  silence_rounds zero per_packet samples w = (true, w)
  silence_rounds (suc rounds) per_packet samples w =
      let (on, w1) = p.session_run w in
      let chunk = min samples per_packet in
      let (ok, w2) = p.output_write (replicate (chunk * sample_bytes) 0) w1 in
      let rest = silence_rounds rounds per_packet (samples - chunk) w2 in
      if samples == 0
      then (true, w)
      else if not on || chunk == 0
      then (true, w1)
      else if ok
      then rest
      else (false, w2)

  unfoldable pub write_silence : Stream → ℕ → W → Bool × W
  write_silence s samples w = silence_rounds samples s.samples_per_packet samples w

-- `gap_samples`: from the timestamps where they fit, else from the sequence numbers.
unfoldable pub gap_samples : ℕ → Stream → Entry → ℕ
gap_samples max_packets s next =
    let missing = offset next.seq s.playhead in
    let delta = (next.timestamp + 2 ^ 32 - s.last_played_ts) % 2 ^ 32 in
    let max_delta = (max_packets + 1) * s.samples_per_packet % 2 ^ 32 in
    if not (s.last_played_ts == 0) && (ltb s.samples_per_packet delta && leb delta max_delta)
    then delta - s.samples_per_packet
    else missing * s.samples_per_packet % 2 ^ 32

pool_bytes : Option (List ℕ) → List ℕ
pool_bytes none = []
pool_bytes (some pool) = pool

-- The PCM of a slot: MICHI_AUDIO_JB_SLOT_BYTES is the payload size.
unfoldable pub slot_pcm : Jb → Slot → List ℕ
unfolding pool_bytes
slot_pcm jb x = take x.entry.len (drop (x.index * payload_bytes) (pool_bytes jb.pool))

-- The session after a packet was handed to the pipeline, and its metrics.
unfoldable pub played : Slot → Stream → Stream
played x s = record s {
  last_played_ts = x.entry.timestamp;
  playhead = (x.entry.seq + 1) % 65536;
  jb = release s.jb x.index;
}

unfoldable pub count_played : Slot → ℕ → Metrics → Metrics
count_played x now m = record m {
  pcm_packets_submitted = add32 m.pcm_packets_submitted 1;
  pcm_bytes_submitted = (m.pcm_bytes_submitted + x.entry.len) % 2 ^ 64;
  last_pcm_submit_us = now;
}

-- The stale packets that a drain finds first.
unfoldable pub drop_stale : Stream → Metrics → Stream × Metrics
drop_stale s m =
    let (stale, jb') = discard_stale s.jb s.playhead in
    let s' = record s { jb = jb' } in
    (s', if stale == 0 then m else metrics_live s' (record m { late = add32 m.late stale }))

-- The packets between the playhead and the next one, given up as lost.
unfoldable pub count_skipped : ℕ → Metrics → Metrics
count_skipped skipped m = record m {
  lost = add32 m.lost skipped;
  provisionally_missing = m.provisionally_missing - skipped;
}

module _ {W : Type 0} (p : Player W) where
  unfoldable pub play : Slot → Stream → Metrics → W → Bool × Stream × Metrics × W
  unfolding count_played
  play x s m w =
      let (ok, w1) = p.output_write (slot_pcm s.jb x) w in
      let (now, w2) = p.timer_us w1 in
      let s' = played x s in
      if ok then (true, s', metrics_live s' (count_played x now m), w2) else (false, s, m, w1)

  -- After the gap: the packet at the new playhead, if it is still there.
  play_at_playhead : Option Slot → Stream → Metrics → W → Bool × Stream × Metrics × W
  unfolding play
  play_at_playhead none s m w = (true, s, m, w)
  play_at_playhead (some x) s m w =
      if x.entry.seq == s.playhead then play x s m w else (true, s, m, w)

  skip_gap : ℕ → Slot → Stream → Metrics → W → Bool × Stream × Metrics × W
  unfolding play_at_playhead
  skip_gap max_packets x s m w =
      let m' = count_skipped (offset x.entry.seq s.playhead) m in
      let (ok, w') = write_silence p s (gap_samples max_packets s x.entry) w in
      let s' = record s { playhead = x.entry.seq } in
      if ok then play_at_playhead (oldest s.jb x.entry.seq) s' m' w' else (false, s, m', w')

  drain_oldest : ℕ → Option Slot → Stream → Metrics → W → Bool × Stream × Metrics × W
  unfolding play skip_gap
  drain_oldest max_packets none s m w = (true, s, m, w)
  drain_oldest max_packets (some x) s m w =
      if x.entry.seq == s.playhead then play x s m w else skip_gap max_packets x s m w

  unfoldable pub session_drain : ℕ → Stream → Metrics → W → Bool × Stream × Metrics × W
  unfolding drain_oldest drop_stale
  session_drain max_packets s m w =
      let (s', m') = drop_stale s m in drain_oldest max_packets (oldest s'.jb s.playhead) s' m' w
