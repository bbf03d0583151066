-- ===== src/Engine/Recv/Account.antt =====
-- Where the audio engine counts each datagram.
use michi_music_stream.Prelude.{
  ℕ, ◌+◌, ◌^◌, ◌<◌, ◌≡◌, refl, sym, ◌∙◌, ap, ◌≤◌, List, [], ◌∷◌, arith, Option-cases, Option, none,
  some, inl, inr, Bool, not, ◌&&◌, if◌then◌else◌, ◌==◌,
}
use michi_music_stream.Rtp.Guard.{
  Packet, GuardSession, Verdict, accepted, malformed, pt_mismatch, ssrc_mismatch, source_mismatch,
  size_mismatch, payload_bytes, parse, classify,
}
use michi_music_stream.Engine.{Metrics, Stream, Engine, add32, metrics_live}
use michi_music_stream.Engine.Policy.{jb_insert, stream_policy}
use michi_music_stream.Engine.Policy.Counters.{stream_policy-SameGuardCounters}
use michi_music_stream.Engine.Recv.{
  Received, failed, datagram, Input, recv_classified, receive, recv_failed, recv_datagram,
  recv_parsed, session_recv, count_drop, recv_estimate,
}

-- The counter of each reason, and the one of the datagrams past the guard.
unfoldable pub class_counter : Verdict → Metrics → ℕ
class_counter accepted m = m.received
class_counter malformed m = m.drops_malformed
class_counter pt_mismatch m = m.drops_pt_other
class_counter ssrc_mismatch m = m.drops_ssrc_filtered
class_counter source_mismatch m = m.drops_source_ip
class_counter size_mismatch m = m.drops_payload_geometry

-- One, if the test holds.
abbrev once : Bool → ℕ
once b = if b then 1 else 0

-- Whether a packet is of a class: it agrees with the session in what is checked before, and not in
-- what the class is named for.
unfoldable pub packet_class : Verdict → Packet → GuardSession → ℕ → ℕ
packet_class malformed p g sender = 0
packet_class pt_mismatch p g sender = once (not (p.pt == g.pt))
packet_class ssrc_mismatch p g sender = once (p.pt == g.pt && not (p.ssrc == g.ssrc))
packet_class source_mismatch p g sender =
    once (p.pt == g.pt && (p.ssrc == g.ssrc && not (sender == g.source_be32)))
packet_class size_mismatch p g sender = once (
    p.pt == g.pt
    && (p.ssrc == g.ssrc && (sender == g.source_be32 && not (p.payload_len == payload_bytes))))
packet_class accepted p g sender = once (
    p.pt == g.pt
    && (p.ssrc == g.ssrc && (sender == g.source_be32 && p.payload_len == payload_bytes)))

unfoldable pub parsed_class : Verdict → Option Packet → GuardSession → ℕ → ℕ
unfolding packet_class
parsed_class malformed none g sender = 1
parsed_class v none g sender = 0
parsed_class v (some p) g sender = packet_class v p g sender

-- How many datagrams of a class a receive gives, none if it fails.
unfoldable pub received_class : Verdict → Received → GuardSession → ℕ
unfolding parsed_class
received_class v (failed transient) g = 0
received_class v (datagram bytes sender) g = parsed_class v (parse bytes) g sender

-- The receives of a session, one after the other.
unfoldable pub recv_all : ℕ → List Input → Engine → Engine
recv_all max_packets [] e = e
recv_all max_packets (i ∷ is) e = recv_all max_packets is (session_recv max_packets i e)

-- The datagrams of a class among those receives.
unfoldable pub arrived : Verdict → List Input → GuardSession → ℕ
unfolding received_class
arrived v [] g = 0
arrived v (i ∷ is) g = received_class v i.received g + arrived v is g

counted : Received → ℕ
counted (failed transient) = 0
counted (datagram bytes sender) = 1

-- The datagrams among those receives.
unfoldable pub datagram_count : List Input → ℕ
unfolding counted
datagram_count [] = 0
datagram_count (i ∷ is) = counted i.received + datagram_count is

-- A class's counter after a packet of that class or another, below the wrap.
classified-counts :
    (v : Verdict) (max_packets : ℕ) (i : Input) (pkt : Packet) (sender : ℕ) (s : Stream)
    (m : Metrics)
    → class_counter v m + 1 < 2 ^ 32
    → class_counter v (recv_classified max_packets i pkt (classify pkt s.guard sender) s m).1
      ≡ class_counter v m + packet_class v pkt s.guard sender
unfolding class_counter classify packet_class recv_classified recv_estimate count_drop metrics_live
classified-counts v max_packets i pkt sender s m h =
    let c =
      stream_policy-SameGuardCounters max_packets i.paused i.seed_us pkt s
        (record m { received = add32 m.received 1 }) in
    ground
      (arith, c.received, c.malformed, c.pt_other, c.ssrc_filtered, c.source_ip, c.payload_geometry)

refused-counts :
    (v : Verdict) (g : GuardSession) (sender : ℕ) (m : Metrics)
    → class_counter v m + 1 < 2 ^ 32
    → class_counter v (count_drop malformed m) ≡ class_counter v m + parsed_class v none g sender
unfolding class_counter count_drop parsed_class
refused-counts v g sender m h = ground arith

parsed_some :
    (v : Verdict) (pkt : Packet) (g : GuardSession) (sender : ℕ)
    → parsed_class v (some pkt) g sender ≡ packet_class v pkt g sender
unfolding parsed_class packet_class
parsed_some v pkt g sender = ground arith

received-counts :
    (v : Verdict) (max_packets : ℕ) (i : Input) (r : Received) (e : Engine)
    → class_counter v e.metrics + 1 < 2 ^ 32
    → class_counter v (receive max_packets i r e).metrics
      ≡ class_counter v e.metrics + received_class v r e.stream.guard
unfolding receive recv_failed recv_datagram recv_parsed received_class
received-counts v max_packets i (failed transient) e h = omega arith
received-counts v max_packets i (datagram bytes sender) e h = elim (Option-cases (parse bytes)) [
  | inl q ↦ rw q (refused-counts v e.stream.guard sender e.metrics h)
  | inr (pkt, q) ↦ rw q (
      classified-counts v max_packets i pkt sender (record e.stream { recv_error_streak = 0 })
        e.metrics h
      ∙ ap (λ c. class_counter v e.metrics + c) (sym (parsed_some v pkt e.stream.guard sender)))
]

policy-guard :
    (max_packets : ℕ) (paused : Bool) (now : ℕ) (pkt : Packet) (s : Stream) (m : Metrics)
    → (stream_policy max_packets paused now pkt s m).1.guard ≡ s.guard
unfolding stream_policy jb_insert
policy-guard max_packets paused now pkt s m = ground arith

classified-guard :
    (max_packets : ℕ) (i : Input) (pkt : Packet) (v : Verdict) (s : Stream) (m : Metrics)
    → (recv_classified max_packets i pkt v s m).0.guard ≡ s.guard
unfolding recv_classified recv_estimate
classified-guard max_packets i pkt v s m =
    let c =
      policy-guard max_packets i.paused i.seed_us pkt s
        (record m { received = add32 m.received 1 }) in
    ground (arith, c)

-- No receive changes what the guard compares with.
received-guard :
    (max_packets : ℕ) (i : Input) (r : Received) (e : Engine)
    → (receive max_packets i r e).stream.guard ≡ e.stream.guard
unfolding receive recv_failed recv_datagram recv_parsed
received-guard max_packets i (failed transient) e = refl
received-guard max_packets i (datagram bytes sender) e = elim (Option-cases (parse bytes)) [
  | inl q ↦ rw q refl
  | inr (pkt, q) ↦ rw q (classified-guard max_packets i pkt _ _ e.metrics)
]

received_class-le : (v : Verdict) (r : Received) (g : GuardSession) → received_class v r g ≤ 1
unfolding received_class parsed_class packet_class
received_class-le v r g = ground arith

abbrev pub class_sum : (Verdict → ℕ) → ℕ
class_sum f =
    f accepted + f malformed + f pt_mismatch + f ssrc_mismatch + f source_mismatch + f size_mismatch

received-once :
    (r : Received) (g : GuardSession) → class_sum (λ v. received_class v r g) ≡ counted r
unfolding received_class parsed_class packet_class counted
received-once r g = ground arith

arrived-once :
    (is : List Input) (g : GuardSession) → class_sum (λ v. arrived v is g) ≡ datagram_count is
unfolding arrived datagram_count
arrived-once [] g = refl
arrived-once (i ∷ is) g = omega (arith, received-once i.received g, arrived-once is g)

all-counts :
    (v : Verdict) (max_packets : ℕ) (is : List Input) (g : GuardSession) (e : Engine)
    → e.stream.guard ≡ g
    → class_counter v e.metrics + arrived v is g + 1 < 2 ^ 32
    → class_counter v (recv_all max_packets is e).metrics
      ≡ class_counter v e.metrics + arrived v is g
unfolding recv_all arrived session_recv
all-counts v max_packets [] g e q h = omega arith
all-counts v max_packets (i ∷ is) g e q h =
    let once =
      received-counts v max_packets i i.received e (omega (arith, received_class-le v i.received g))
      ∙ ap (λ x. class_counter v e.metrics + received_class v i.received x) q in
    omega (
      arith,
      once,
      all-counts v max_packets is g (receive max_packets i i.received e)
          (received-guard max_packets i i.received e ∙ q) (omega (arith, once)),
    )

-- Over any sequence of receives each datagram is of one class and counted there: as received where
-- its payload type, its SSRC, its sender and its size are the session's, as malformed where its
-- header does not parse, and otherwise in the counter of the first of these four, in this order, that
-- is not the session's; a failed receive is counted nowhere. For each class, while its counter fits 32 bits.
pub recv_all-datagrams :
    (v : Verdict) (max_packets : ℕ) (is : List Input) (e : Engine)
    → class_counter v e.metrics + arrived v is e.stream.guard + 1 < 2 ^ 32
    → (class_counter v (recv_all max_packets is e).metrics
        ≡ class_counter v e.metrics + arrived v is e.stream.guard)
      × (class_sum (λ c. arrived c is e.stream.guard) ≡ datagram_count is)
recv_all-datagrams v max_packets is e h =
    (all-counts v max_packets is e.stream.guard e refl h, arrived-once is e.stream.guard)
