-- ===== src/Engine/Policy/Window.antt =====
-- Which packets the jitter buffer holds between the calls of the audio engine: those from the
-- playhead on, as far ahead as the window reaches.
use michi_music_stream.Prelude.{
  ℕ, ◌+◌, ◌*◌, ◌^◌, ◌≤◌, ◌<◌, ◌≡◌, sym, Bool, true, false, not, none, some, EspErr, is_ok, arith,
  if◌then◌else◌, ◌∙◌, if-both, if-split,
}
use michi_music_stream.Prelude.Int.{pos, ltb_ℤ}
use michi_music_stream.Rtp.Distance.{distance, offset}
use michi_music_stream.Rtp.Guard.{Packet}
use michi_music_stream.JitterBuffer.{Entry, flush}
use michi_music_stream.JitterBuffer.Valid.{IsValid, packet}
use michi_music_stream.JitterBuffer.Holds.{Holds, flush-valid, insert_packet-Holds}
use michi_music_stream.Engine.{Metrics, Stream}
use michi_music_stream.Engine.Policy.{
  jb_insert, policy_paused, policy_seed, policy_resync, policy_accepted, policy_refused,
  policy_arrival, stream_policy, seeded_at,
}

-- A sequence number from the playhead on, at most `max_packets` ahead of it.
abbrev pub Ahead : ℕ → ℕ → ℕ → Type 0
Ahead max_packets playhead n = (n < 65536) × (offset n playhead ≤ max_packets)

pub record InWindow (max_packets : ℕ) (s : Stream) : Type 0 where
  pub valid : IsValid s.jb
  pub ahead : Holds (Ahead max_packets s.playhead) s.jb
  pub unseeded : s.stream_seeded ≡ false → (n : ℕ) → packet s.jb n ≡ none
  pub playhead_in : s.playhead < 65536
  pub per_packet : (max_packets + 1) * s.samples_per_packet < 2 ^ 32

offset_self : (n : ℕ) → n < 65536 → offset n n ≡ 0
offset_self n h = omega arith

-- The two tests of `stream_policy` on the distance leave the window.
offset_of_tests :
    (max_packets n playhead : ℕ)
    → max_packets < 32768
    → ltb_ℤ (pos max_packets) (distance n playhead) ≡ false
    → ltb_ℤ (distance n playhead) (pos 0) ≡ false
    → offset n playhead ≤ max_packets
unfolding distance
offset_of_tests max_packets n playhead h a b = ground arith

none-ne-some : {a : Entry} → none ≡ some a → ⊥
none-ne-some h = cc

module _ (max_packets : ℕ) (pkt : Packet) (small : pkt.seq < 65536) where
  -- An insertion into a buffer whose packets lie in the window of a playhead, itself in it.
  jb_insert-InWindow :
      (playhead : ℕ) (s : Stream) (m : Metrics)
      → IsValid s.jb
      → Holds (Ahead max_packets playhead) s.jb
      → offset pkt.seq playhead ≤ max_packets
      → let jb' = (jb_insert playhead pkt s m).1.jb in
        IsValid jb' × Holds (Ahead max_packets playhead) jb'
  unfolding jb_insert
  jb_insert-InWindow playhead s m v h o =
      insert_packet-Holds (Ahead max_packets playhead) s.jb playhead pkt.seq pkt.timestamp
        (some pkt.payload) pkt.payload_len v h (small, o)

  policy_seed-InWindow :
      (now : ℕ) (s : Stream) (m : Metrics)
      → IsValid s.jb
      → ((n : ℕ) → packet s.jb n ≡ none)
      → (max_packets + 1) * s.samples_per_packet < 2 ^ 32
      → InWindow max_packets (policy_seed pkt now s m).1
  unfolding policy_seed jb_insert seeded_at
  policy_seed-InWindow now s m v none_held size =
      let k =
        jb_insert-InWindow pkt.seq s m v (λ n e at. absurd (none-ne-some (sym (none_held n) ∙ at)))
          (omega (arith, offset_self pkt.seq small)) in
      record {
        valid = k.0;
        ahead = k.1;
        unseeded = λ h. absurd (cc);
        playhead_in = small;
        per_packet = size;
      }

  policy_resync-InWindow :
      (now : ℕ) (s : Stream) (m : Metrics)
      → IsValid s.jb
      → (max_packets + 1) * s.samples_per_packet < 2 ^ 32
      → InWindow max_packets (policy_resync pkt now s m).1
  unfolding policy_resync
  policy_resync-InWindow now s m v size =
      let c = flush-valid s.jb v in
      policy_seed-InWindow now (record s { jb = flush s.jb; last_played_ts = 0 }) m c.valid
        c.no_packet size

  inserted-InWindow :
      (s : Stream) (m : Metrics)
      → InWindow max_packets s
      → s.stream_seeded ≡ true
      → offset pkt.seq s.playhead ≤ max_packets
      → InWindow max_packets (jb_insert s.playhead pkt s m).1
  unfolding jb_insert
  inserted-InWindow s m v seeded o =
      let k = jb_insert-InWindow s.playhead s m v.valid v.ahead o in
      record {
        valid = k.0;
        ahead = k.1;
        unseeded = λ h. absurd (cc);
        playhead_in = v.playhead_in;
        per_packet = v.per_packet;
      }

  -- The high-water mark has no part in the window.
  last_seq-InWindow :
      (b : Bool) (s : Stream)
      → InWindow max_packets s
      → InWindow max_packets (if b then record s { last_seq = pkt.seq } else s)
  last_seq-InWindow b s v =
      if-both (InWindow max_packets) b
        (record {
          valid = v.valid;
          ahead = v.ahead;
          unseeded = v.unseeded;
          playhead_in = v.playhead_in;
          per_packet = v.per_packet;
        })
        v

  policy_accepted-InWindow :
      (s : Stream) (m : Metrics)
      → InWindow max_packets s
      → InWindow max_packets (policy_accepted pkt s m).1
  unfolding policy_accepted
  policy_accepted-InWindow s m v = last_seq-InWindow _ s v

  policy_refused-InWindow :
      (err : EspErr) (s : Stream) (m : Metrics)
      → InWindow max_packets s
      → InWindow max_packets (policy_refused err s m).1
  unfolding policy_refused
  policy_refused-InWindow EspErr.invalid_state s m v = v
  policy_refused-InWindow err s m v = v

  policy_arrival-InWindow :
      (s : Stream) (m : Metrics)
      → InWindow max_packets s
      → s.stream_seeded ≡ true
      → offset pkt.seq s.playhead ≤ max_packets
      → InWindow max_packets (policy_arrival pkt s m).1
  unfolding policy_arrival
  policy_arrival-InWindow s m v seeded o =
      let (err, s', m') = jb_insert s.playhead pkt s m in
      let w = inserted-InWindow s m v seeded o in
      if-both (λ (r : Bool × Stream × Metrics). InWindow max_packets r.1) (is_ok err)
        (policy_accepted-InWindow s' m' w) (policy_refused-InWindow err s' m' w)

  policy_paused-InWindow :
      (s : Stream) (m : Metrics)
      → InWindow max_packets s
      → InWindow max_packets (policy_paused pkt s m).1
  unfolding policy_paused
  policy_paused-InWindow s m v = last_seq-InWindow _ s v

  -- Whatever arrives, the packets held after `stream_policy` lie in the window of the playhead.
  pub stream_policy-InWindow :
      (paused : Bool) (now : ℕ) (s : Stream) (m : Metrics)
      → max_packets < 32768
      → InWindow max_packets s
      → InWindow max_packets (stream_policy max_packets paused now pkt s m).1
  unfolding stream_policy
  stream_policy-InWindow paused now s m bound v =
      let P = λ (r : Bool × Stream × Metrics). InWindow max_packets r.1 in
      if-both P paused (policy_paused-InWindow s m v) (
        if-split P (not s.stream_seeded)
          (λ h. policy_seed-InWindow now s m v.valid (v.unseeded (ground arith)) v.per_packet)
          (λ seeded.
            if-split P (ltb_ℤ (pos max_packets) (distance pkt.seq s.playhead))
              (λ far. policy_resync-InWindow now s m v.valid v.per_packet)
              (λ near.
                if-split P (ltb_ℤ (distance pkt.seq s.playhead) (pos 0)) (λ late. v)
                  (λ due.
                    policy_arrival-InWindow s m v (ground arith)
                      (offset_of_tests max_packets pkt.seq s.playhead bound near due)))))
