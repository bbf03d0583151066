-- ===== src/Rtp/Loss.antt =====
-- Packet loss from sequence gaps: `michi_rtp_guard_lost_delta` of rtp_guard.c.
use michi_music_stream.Prelude.{
  ℕ, ◌+◌, ◌-◌, ◌%◌, ◌≤◌, ◌<◌, ◌≡◌, refl, List, [], ◌∷◌, arith, if◌then◌else◌, All, length,
}
use michi_music_stream.Prelude.Int.{pos, pos_part, ltb_ℤ}
use michi_music_stream.Rtp.Distance.{distance}

-- `diff > 1` rules out the negative values, so the result is `diff - 1` as a number.
unfoldable pub lost_delta : ℕ → ℕ → ℕ
lost_delta last_seq seq =
    let diff = distance seq last_seq in if ltb_ℤ (pos 1) diff then pos_part diff - 1 else 0

-- An advance by `n` packets across the wrap, fewer than half the sequence space, counts the `n - 1`
-- packets between; an advance by none counts none.
pub lost_delta-advance :
    (last n : ℕ) → last < 65536 → n < 32768 → lost_delta last ((last + n) % 65536) ≡ n - 1
unfolding lost_delta distance
lost_delta-advance last n hl hn = ground arith

-- A packet from behind, at most half the sequence space back, counts none.
pub lost_delta-late :
    (last n : ℕ) → last < 65536 → n ≤ 32768 → 0 < n → lost_delta ((last + n) % 65536) last ≡ 0
unfolding lost_delta distance
lost_delta-late last n hl hn h0 = ground arith

-- The sequence number that arrives `k` steps on.
abbrev pub advance : ℕ → ℕ → ℕ
advance seq k = (seq + k) % 65536

-- The losses counted while the steps of a stream are taken one after the other.
unfoldable pub lost_total : ℕ → List ℕ → ℕ
lost_total last [] = 0
lost_total last (k ∷ ks) = lost_delta last (advance last k) + lost_total (advance last k) ks

abbrev pub sum : List ℕ → ℕ
sum [] = 0
sum (k ∷ ks) = k + sum ks

-- A step of a stream that advances, by fewer than half the sequence space.
abbrev pub IsStep : ℕ → Type 0
IsStep k = (0 < k) × (k < 32768)

-- Over a stream that only advances, from any starting point and across any number of wraps, the
-- packets received and the losses counted add up to the sequence numbers passed.
pub lost_total-sum :
    (last : ℕ) (ks : List ℕ)
    → last < 65536
    → All IsStep ks
    → lost_total last ks + length ks ≡ sum ks
unfolding lost_total
lost_total-sum last [] h w = refl
lost_total-sum last (k ∷ ks) h w = omega (
  arith,
  lost_delta-advance last k h w.0.1,
  lost_total-sum (advance last k) ks (omega arith) w.1,
  w.0.0,
)
