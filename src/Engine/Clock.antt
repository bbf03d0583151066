-- ===== src/Engine/Clock.antt =====
-- The estimators of firmware/components/michi_audio: the extended RTP clock of michi_rtp_clock.h, and
-- the interarrival jitter and the clock offset of michi_rtp_jitter.h. Arrival times are microseconds
-- since boot.
pub mod Tracking
use michi_music_stream.Prelude.{
  ℕ, zero, suc, ◌+◌, ◌-◌, ◌*◌, ◌/◌, ◌%◌, ◌^◌, Bool, true, false, ltb, ◌==◌, if◌then◌else◌,
}
use michi_music_stream.Prelude.Int.{ℤ, pos, negsuc, ◌-ℤ◌, pos_part, neg_part, sub_ℕ, ltb_ℤ}

-- `michi_rtp_clock_t`.
pub record RtpClock : Type 0 where
  pub last_raw : ℕ
  pub extended : ℕ
  pub highest_extended : ℕ
  pub base : ℕ
  pub seeded : Bool

-- `michi_rtp_clock_reset`.
unfoldable pub clock_reset : RtpClock
clock_reset = record { last_raw = 0; extended = 0; highest_extended = 0; base = 0; seeded = false }

clock_advance : RtpClock → ℕ → RtpClock
clock_advance c raw =
    let highest_raw = c.highest_extended % 2 ^ 32 in
    let diff = (raw + 2 ^ 32 - highest_raw) % 2 ^ 32 in
    let ahead = (c.highest_extended + diff) % 2 ^ 64 in
    let behind = (highest_raw + 2 ^ 32 - raw) % 2 ^ 32 in
    if ltb diff 0x80000000
    then record c { extended = ahead; highest_extended = ahead; last_raw = raw }
    else record c { extended = (c.highest_extended + 2 ^ 64 - behind) % 2 ^ 64; last_raw = raw }

-- `michi_rtp_clock_feed`; what it returns is the field `extended`.
unfoldable pub clock_feed : RtpClock → ℕ → RtpClock
unfolding clock_advance
clock_feed c raw = if c.seeded then clock_advance c raw else record {
  last_raw = raw;
  extended = raw;
  highest_extended = raw;
  base = raw;
  seeded = true;
}

-- `michi_rtp_clock_delta`.
unfoldable pub clock_delta : RtpClock → ℕ
clock_delta c = (c.extended + 2 ^ 64 - c.base) % 2 ^ 64

-- The integer that a 32-bit pattern stands for.
abbrev pub int32 : ℕ → ℤ
int32 w = if ltb w 0x80000000 then pos w else negsuc (0xffffffff - w)

-- A product and a quotient as in C: the quotient is cut towards zero.
abbrev pub scale : ℤ → ℕ → ℕ → ℤ
scale (pos n) k d = pos (n * k / d)
scale (negsuc n) k d = sub_ℕ 0 (suc n * k / d)

abbrev pub magnitude : ℤ → ℕ
magnitude z = pos_part z + neg_part z

-- `michi_rtp_jitter_t`.
pub record RtpJitter : Type 0 where
  pub seeded : Bool
  pub prev_arrival_us : ℕ
  pub prev_rtp_ts : ℕ
  pub jitter_us : ℕ

-- `michi_rtp_jitter_reset`.
unfoldable pub jitter_reset : RtpJitter
jitter_reset = record { seeded = false; prev_arrival_us = 0; prev_rtp_ts = 0; jitter_us = 0 }

-- MICHI_AUDIO_JITTER_SAMPLE_CLAMP_US.
abbrev pub jitter_clamp_us : ℕ
jitter_clamp_us = 1000000

-- The transit difference of one arrival, clamped.
unfoldable pub transit_us : RtpJitter → ℕ → ℕ → ℕ → ℕ
transit_us j arrival_us rtp_ts sample_rate =
    let rate = if sample_rate == 0 then 48000 else sample_rate in
    let d_ts = int32 ((rtp_ts + 2 ^ 32 - j.prev_rtp_ts) % 2 ^ 32) in
    let d_us = sub_ℕ arrival_us j.prev_arrival_us -ℤ scale d_ts 1000000 rate in
    let abs_d = magnitude d_us in if ltb jitter_clamp_us abs_d then jitter_clamp_us else abs_d

-- `michi_rtp_jitter_feed`; what it returns is the field `jitter_us`.
unfoldable pub jitter_feed : RtpJitter → ℕ → ℕ → ℕ → RtpJitter
unfolding transit_us
jitter_feed j arrival_us rtp_ts sample_rate = record {
  seeded = true;
  prev_arrival_us = arrival_us;
  prev_rtp_ts = rtp_ts;
  jitter_us =
      if j.seeded
      then (j.jitter_us * 15 + transit_us j arrival_us rtp_ts sample_rate) / 16 % 2 ^ 32
      else 0;
}

-- `michi_rtp_clock_offset_us`: the arrival against the time that the samples since the base take,
-- cut to the range of an int32_t.
unfoldable pub clock_offset_us : ℕ → ℕ → ℕ → ℕ → ℤ
clock_offset_us arrival_us base_arrival_us ts_delta_64 sample_rate =
    let rate = if sample_rate == 0 then 48000 else sample_rate in
    let expected_us = base_arrival_us + ts_delta_64 * 1000000 % 2 ^ 64 / rate in
    let offset_us = sub_ℕ arrival_us expected_us in
    if ltb_ℤ (pos 0x7fffffff) offset_us
    then pos 0x7fffffff
    else if ltb_ℤ offset_us (negsuc 0x7fffffff)
    then negsuc 0x7fffffff
    else offset_us
