-- ===== src/Engine/Recv/Window.antt =====
-- A receive keeps the packets held by the audio engine in the window of the playhead.
use michi_music_stream.Prelude.{
  ℕ, ◌<◌, ◌≡◌, some, List, ◌∷◌, arith, All, if-both, Option-cases, inl, inr,
}
use michi_music_stream.Rtp.Guard.{Packet, Verdict, accepted, parse, classify}
use michi_music_stream.Engine.{Metrics, Stream, Engine, add32}
use michi_music_stream.Engine.Policy.{stream_policy}
use michi_music_stream.Engine.Policy.Window.{InWindow, stream_policy-InWindow}
use michi_music_stream.Engine.Recv.{
  Received, failed, datagram, Input, session_recv, receive, recv_parsed, recv_classified,
  recv_packet, recv_estimate,
}

abbrev pub AllBytes : List ℕ → Type 0
AllBytes bytes = All (λ b. b < 256) bytes

-- What the socket returns is made of bytes.
abbrev pub GivesBytes : Received → Type 0
GivesBytes (failed transient) = Unit {0}
GivesBytes (datagram bytes sender) = AllBytes bytes

seq_of_parse :
    (bytes : List ℕ) (pkt : Packet) → AllBytes bytes → parse bytes ≡ some pkt → pkt.seq < 65536
unfolding parse
seq_of_parse (b0 ∷ b1 ∷ b2 ∷ b3 ∷ b4 ∷ b5 ∷ b6 ∷ b7 ∷ b8 ∷ b9 ∷ b10 ∷ b11 ∷ payload) pkt a h =
    let h2 = a.1.1.0 in let h3 = a.1.1.1.0 in ground arith
seq_of_parse _ pkt a h = absurd (cc)

module _ (max_packets : ℕ) (bound : max_packets < 32768) (i : Input) where
  recv_packet-InWindow :
      (pkt : Packet) (s : Stream) (m : Metrics)
      → pkt.seq < 65536
      → InWindow max_packets s
      → InWindow max_packets (recv_packet max_packets i pkt s m).0
  unfolding recv_packet recv_estimate
  recv_packet-InWindow pkt s m small v =
      let (queued, s', m') =
        stream_policy max_packets i.paused i.seed_us pkt s
          (record m { received = add32 m.received 1 }) in
      let w =
        stream_policy-InWindow max_packets pkt small i.paused i.seed_us s
          (record m { received = add32 m.received 1 }) bound v in
      if-both (λ (r : Stream × Metrics). InWindow max_packets r.0) queued
        (record {
          valid = w.valid;
          ahead = w.ahead;
          unseeded = w.unseeded;
          playhead_in = w.playhead_in;
          per_packet = w.per_packet;
        })
        w

  recv_classified-InWindow :
      (pkt : Packet) (verdict : Verdict) (s : Stream) (m : Metrics)
      → pkt.seq < 65536
      → InWindow max_packets s
      → InWindow max_packets (recv_classified max_packets i pkt verdict s m).0
  unfolding recv_classified
  recv_classified-InWindow pkt accepted s m small v = recv_packet-InWindow pkt s m small v
  recv_classified-InWindow pkt verdict s m small v = v

  recv_parsed-InWindow :
      (bytes : List ℕ) (sender : ℕ) (s : Stream) (m : Metrics)
      → AllBytes bytes
      → InWindow max_packets s
      → InWindow max_packets (recv_parsed max_packets i sender (parse bytes) s m).0
  unfolding recv_parsed
  recv_parsed-InWindow bytes sender s m a v = elim (Option-cases (parse bytes)) [
    | inl e ↦ rw e v
    | inr (pkt, e) ↦ rw e (
        recv_classified-InWindow pkt (classify pkt s.guard sender) s m (seq_of_parse bytes pkt a e)
          v)
  ]

  receive-InWindow :
      (received : Received) (e : Engine)
      → GivesBytes received
      → InWindow max_packets e.stream
      → InWindow max_packets (receive max_packets i received e).stream
  unfolding receive
  receive-InWindow (failed transient) e b v = record {
    valid = v.valid;
    ahead = v.ahead;
    unseeded = v.unseeded;
    playhead_in = v.playhead_in;
    per_packet = v.per_packet;
  }
  receive-InWindow (datagram bytes sender) e b v =
      recv_parsed-InWindow bytes sender (record e.stream { recv_error_streak = 0 }) e.metrics b
        (record {
          valid = v.valid;
          ahead = v.ahead;
          unseeded = v.unseeded;
          playhead_in = v.playhead_in;
          per_packet = v.per_packet;
        })

-- Whatever the socket returns, the packets held after `session_recv` lie in the window.
pub session_recv-InWindow :
    (max_packets : ℕ) (i : Input) (e : Engine)
    → max_packets < 32768
    → GivesBytes i.received
    → InWindow max_packets e.stream
    → InWindow max_packets (session_recv max_packets i e).stream
unfolding session_recv
session_recv-InWindow max_packets i e bound b v =
    receive-InWindow max_packets bound i i.received e b v
