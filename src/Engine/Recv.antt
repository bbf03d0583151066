-- ===== src/Engine/Recv.antt =====
-- `session_recv` of michi_audio.c: from a receive result to the state after it.
pub mod Window
pub mod Account
use michi_music_stream.Prelude.{
  ℕ, ◌+◌, ◌-◌, ◌*◌, ◌/◌, ◌%◌, ◌^◌, Bool, true, false, not, ◌&&◌, ◌||◌, Option, none, some, List, [],
  ◌∷◌, EspErr, is_ok, ltb, leb, ◌==◌, if◌then◌else◌,
}
use michi_music_stream.Prelude.Int.{ℤ, pos, negsuc, ltb_ℤ}
use michi_music_stream.Rtp.Distance.{distance}
use michi_music_stream.Rtp.Guard.{
  Packet, GuardSession, Verdict, accepted, malformed, pt_mismatch, ssrc_mismatch, source_mismatch,
  size_mismatch, parse, classify,
}
use michi_music_stream.Rtp.Loss.{lost_delta}
use michi_music_stream.JitterBuffer.{Jb, InsertResult, flush}
use michi_music_stream.JitterBuffer.Insert.{insert_packet}
use michi_music_stream.Engine.Clock.{
  RtpClock, RtpJitter, clock_reset, clock_feed, clock_delta, jitter_reset, jitter_feed,
  clock_offset_us,
}
use michi_music_stream.Engine.{Metrics, Stream, Engine, sample_rate, add32, metrics_live}
use michi_music_stream.Engine.Policy.{stream_policy}

-- What `recvfrom` returns: an error, EAGAIN, EWOULDBLOCK and EINTR being transient, or a datagram
-- with its sender's address.
pub data Received : Type 0 where
  failed : Bool → Received
  datagram : List ℕ → ℕ → Received

-- What `session_recv` reads from outside: the socket, `s_paused` and the clock, at the seed of an
-- epoch and at the estimators.
pub record Input : Type 0 where
  pub received : Received
  pub paused : Bool
  pub seed_us : ℕ
  pub now_us : ℕ

-- `michi_audio_recv_error_is_fatal`, with its threshold of 3.
unfoldable pub error_streak : Bool → ℕ → ℕ
error_streak transient streak = if transient then 0 else if ltb streak 3 then streak + 1 else streak

recv_failed : Bool → Engine → Engine
recv_failed transient e =
    let streak = error_streak transient e.stream.recv_error_streak in
    let fatal = not transient && leb 3 streak in
    record e {
      stream = record e.stream {
        recv_error_streak = streak;
        fatal_recv_error = e.stream.fatal_recv_error || fatal;
      };
      run = e.run && not fatal;
    }

-- The counter of a verdict that rejects.
unfoldable pub count_drop : Verdict → Metrics → Metrics
count_drop pt_mismatch m = record m { drops_pt_other = add32 m.drops_pt_other 1 }
count_drop ssrc_mismatch m = record m { drops_ssrc_filtered = add32 m.drops_ssrc_filtered 1 }
count_drop source_mismatch m = record m { drops_source_ip = add32 m.drops_source_ip 1 }
count_drop size_mismatch m = record m { drops_payload_geometry = add32 m.drops_payload_geometry 1 }
count_drop _ m = record m { drops_malformed = add32 m.drops_malformed 1 }

-- The end of `session_recv`: the last packet, the live figures and the two estimators.
unfoldable pub recv_estimate : Packet → ℕ → Stream → Metrics → Stream × Metrics
recv_estimate pkt now s m =
    let j = jitter_feed s.rtp_jitter now pkt.timestamp sample_rate in
    let c = clock_feed s.rtp_clock pkt.timestamp in
    let offset = clock_offset_us now s.base_time_us (clock_delta c) sample_rate in
    (
      record s { rtp_jitter = j; jitter_us = j.jitter_us; rtp_clock = c; clock_offset_us = offset },
      record (metrics_live s m) {
        last_seq = pkt.seq;
        last_timestamp = pkt.timestamp;
        jitter_us = j.jitter_us;
        rtp_interarrival_jitter_us = j.jitter_us;
        clock_offset_us = offset;
      },
    )

recv_packet : ℕ → Input → Packet → Stream → Metrics → Stream × Metrics
unfolding recv_estimate
recv_packet max_packets i pkt s m =
    let (queued, s', m') =
      stream_policy max_packets i.paused i.seed_us pkt s
        (record m { received = add32 m.received 1 }) in
    if queued then recv_estimate pkt i.now_us s' m' else (s', m')

recv_classified : ℕ → Input → Packet → Verdict → Stream → Metrics → Stream × Metrics
unfolding recv_packet
recv_classified max_packets i pkt accepted s m = recv_packet max_packets i pkt s m
recv_classified max_packets i pkt v s m = (s, count_drop v m)

recv_parsed : ℕ → Input → ℕ → Option Packet → Stream → Metrics → Stream × Metrics
unfolding recv_classified
recv_parsed max_packets i sender none s m = (s, count_drop malformed m)
recv_parsed max_packets i sender (some pkt) s m =
    recv_classified max_packets i pkt (classify pkt s.guard sender) s m

recv_datagram : ℕ → Input → List ℕ → ℕ → Engine → Engine
unfolding recv_parsed
recv_datagram max_packets i bytes sender e =
    let s = record e.stream { recv_error_streak = 0 } in
    let (s', m') = recv_parsed max_packets i sender (parse bytes) s e.metrics in
    record e { stream = s'; metrics = m' }

-- `session_recv`. The check for an empty datagram counts it as the parse would.
receive : ℕ → Input → Received → Engine → Engine
unfolding recv_failed recv_datagram
receive max_packets i (failed transient) e = recv_failed transient e
receive max_packets i (datagram bytes sender) e = recv_datagram max_packets i bytes sender e

unfoldable pub session_recv : ℕ → Input → Engine → Engine
unfolding receive
session_recv max_packets i e = receive max_packets i i.received e
