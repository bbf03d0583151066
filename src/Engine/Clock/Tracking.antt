-- ===== src/Engine/Clock/Tracking.antt =====
-- The extended clock of michi_rtp_clock.h against the sender's own 64-bit timestamps.
use michi_music_stream.Prelude.{ℕ, ◌+◌, ◌%◌, ◌^◌, max, ◌≤◌, ◌<◌, ◌≡◌, true, List, [], ◌∷◌, arith}
use michi_music_stream.Engine.Clock.{
  RtpClock, clock_reset, clock_feed, clock_delta, RtpJitter, jitter_feed, jitter_clamp_us,
}

-- A timestamp `t` follows the highest seen, `h`, by less than half of the 32-bit range, or trails it
-- by at most that.
abbrev pub IsNear : ℕ → ℕ → Type 0
IsNear h t = (t < h + 0x80000000) × (h ≤ t + 0x80000000)

-- The timestamps of a stream from the highest seen on, the highest being kept.
abbrev pub IsNearStream : ℕ → List ℕ → Type 0
IsNearStream h [] = Unit {0}
IsNearStream h (t ∷ ts) = IsNear h t × (t < 2 ^ 63) × IsNearStream (max h t) ts

-- The clock fed with the low 32 bits of each timestamp.
unfoldable pub feed_all : RtpClock → List ℕ → RtpClock
feed_all c [] = c
feed_all c (t ∷ ts) = feed_all (clock_feed c (t % 2 ^ 32)) ts

abbrev pub last_of : ℕ → List ℕ → ℕ
last_of t [] = t
last_of t (u ∷ ts) = last_of u ts

abbrev pub max_of : ℕ → List ℕ → ℕ
max_of h [] = h
max_of h (t ∷ ts) = max_of (max h t) ts

-- The clock after a timestamp `t` of a stream with base `b` and highest timestamp `h`.
pub record Tracks (b h t : ℕ) (c : RtpClock) : Type 0 where
  pub seeded : c.seeded ≡ true
  pub extended : c.extended ≡ t
  pub highest : c.highest_extended ≡ h
  pub base : c.base ≡ b

feed-Tracks :
    {b h t : ℕ} {c : RtpClock} (u : ℕ)
    → Tracks b h t c
    → h < 2 ^ 63
    → u < 2 ^ 63
    → IsNear h u
    → Tracks b (max h u) u (clock_feed c (u % 2 ^ 32))
unfolding clock_feed
feed-Tracks u k hh hu near = ground arith

feed_all-Tracks :
    (b h t : ℕ) (c : RtpClock) (ts : List ℕ)
    → Tracks b h t c
    → h < 2 ^ 63
    → IsNearStream h ts
    → Tracks b (max_of h ts) (last_of t ts) (feed_all c ts)
unfolding feed_all
feed_all-Tracks b h t c [] k hh near = k
feed_all-Tracks b h t c (u ∷ ts) k hh (n, small, near) =
    feed_all-Tracks b (max h u) u (clock_feed c (u % 2 ^ 32)) ts (feed-Tracks u k hh small n)
      (omega arith) near

last_of-small :
    (t : ℕ) (ts : List ℕ) (h : ℕ) → t < 2 ^ 63 → IsNearStream h ts → last_of t ts < 2 ^ 63
last_of-small t [] h small near = small
last_of-small t (u ∷ ts) h small (_, small', near) = last_of-small u ts (max h u) small' near

-- The clock, fed with the 32-bit timestamps of a stream from its reset on, holds the sender's last
-- and highest 64-bit timestamps, across any number of wraps and with late packets in between, while
-- each timestamp lies within half of the 32-bit range of the highest before it, the first below
-- 2^32 and all below 2^63; and the delta that
-- it reports is the time from the first timestamp to the last, modulo 2^64.
pub feed_all-exact :
    (t : ℕ) (ts : List ℕ)
    → t < 2 ^ 32
    → IsNearStream t ts
    → let c = feed_all clock_reset (t ∷ ts) in
      (c.extended ≡ last_of t ts)
      × (c.highest_extended ≡ max_of t ts)
      × ((t + clock_delta c) % 2 ^ 64 ≡ last_of t ts)
unfolding feed_all clock_feed clock_reset clock_delta
feed_all-exact t ts h near =
    let start : Tracks t t t (clock_feed clock_reset (t % 2 ^ 32)) = ground arith in
    let k = feed_all-Tracks t t t _ ts start (omega arith) near in
    (
      k.extended,
      k.highest,
      omega (arith, k.extended, k.base, last_of-small t ts t (omega arith) near),
    )

-- The jitter estimate never exceeds the clamp on one sample.
pub jitter_feed-le :
    (j : RtpJitter) (arrival_us rtp_ts sample_rate : ℕ)
    → j.jitter_us ≤ jitter_clamp_us
    → (jitter_feed j arrival_us rtp_ts sample_rate).jitter_us ≤ jitter_clamp_us
unfolding jitter_feed
jitter_feed-le j arrival_us rtp_ts sample_rate h = ground arith
