-- ===== src/Engine.antt =====
-- The audio engine of firmware/components/michi_audio/michi_audio.c: the state of its session task.
-- `Policy` and `Recv` are the receive path, `Playback` the playing side.
pub mod Clock
pub mod Policy
pub mod Recv
pub mod Playback
pub mod Task
use michi_music_stream.Prelude.{
  ℕ, ◌+◌, ◌-◌, ◌*◌, ◌/◌, ◌%◌, ◌^◌, Bool, true, false, not, ◌&&◌, ◌||◌, Option, none, some, List, [],
  ◌∷◌, EspErr, is_ok, ltb, leb, ◌==◌, if◌then◌else◌,
}
use michi_music_stream.Prelude.Int.{ℤ, pos, negsuc, ltb_ℤ}
use michi_music_stream.Rtp.Distance.{distance}
use michi_music_stream.Rtp.Guard.{
  Packet, GuardSession, Verdict, accepted, malformed, pt_mismatch, ssrc_mismatch, source_mismatch,
  size_mismatch, parse, classify,
}
use michi_music_stream.Rtp.Loss.{lost_delta}
use michi_music_stream.JitterBuffer.{Jb, InsertResult, flush}
use michi_music_stream.JitterBuffer.Insert.{insert_packet}
use michi_music_stream.Engine.Clock.{
  RtpClock, RtpJitter, clock_reset, clock_feed, clock_delta, jitter_reset, jitter_feed,
  clock_offset_us,
}

-- `michi_audio_metrics_t`.
pub record Metrics : Type 0 where
  pub received : ℕ
  pub lost : ℕ
  pub provisionally_missing : ℕ
  pub late : ℕ
  pub duplicate : ℕ
  pub reordered : ℕ
  pub underruns : ℕ
  pub overruns : ℕ
  pub drops_malformed : ℕ
  pub drops_pt_other : ℕ
  pub drops_ssrc_filtered : ℕ
  pub drops_source_ip : ℕ
  pub drops_payload_geometry : ℕ
  pub jitter_us : ℕ
  pub rtp_interarrival_jitter_us : ℕ
  pub clock_offset_us : ℤ
  pub buffer_ms : ℕ
  pub packets_in_buffer : ℕ
  pub last_seq : ℕ
  pub last_timestamp : ℕ
  pub pcm_packets_submitted : ℕ
  pub pcm_bytes_submitted : ℕ
  pub last_pcm_submit_us : ℕ

-- `session_t` without the socket, the port and the two scratch buffers.
pub record Stream : Type 0 where
  pub guard : GuardSession
  pub stream_seeded : Bool
  pub playhead : ℕ
  pub last_seq : ℕ
  pub last_played_ts : ℕ
  pub samples_per_packet : ℕ
  pub base_ts : ℕ
  pub base_time_us : ℕ
  pub jitter_us : ℕ
  pub in_underrun : Bool
  pub recv_error_streak : ℕ
  pub fatal_recv_error : Bool
  pub rtp_clock : RtpClock
  pub rtp_jitter : RtpJitter
  pub clock_offset_us : ℤ
  pub buffer_ms : ℕ
  pub jb : Jb

-- The task's state: the session, the metrics and `s_session_run`.
pub record Engine : Type 0 where
  pub stream : Stream
  pub metrics : Metrics
  pub run : Bool

-- MICHI_AUDIO_SAMPLE_RATE.
abbrev pub sample_rate : ℕ
sample_rate = 48000

-- `m_add` on a counter of 32 bits, and `m_sub`, which stops at 0.
abbrev pub add32 : ℕ → ℕ → ℕ
add32 a b = (a + b) % 2 ^ 32

-- `metrics_live`.
unfoldable pub metrics_live : Stream → Metrics → Metrics
metrics_live s m = record m {
  packets_in_buffer = s.jb.count;
  buffer_ms =
      if s.samples_per_packet == 0
      then 0
      else s.jb.count * s.samples_per_packet * 1000 / sample_rate % 2 ^ 32;
}
