-- ===== src/Rtp/Distance.antt =====
-- Sequence distance of the RTP layer: the expression `(int16_t)(a - b)` on `uint16_t` values, which
-- michi_jb.c and rtp_guard.c share.
use michi_music_stream.Prelude.{ℕ, ◌+◌, ◌-◌, ◌%◌, Bool, ltb, if◌then◌else◌}
use michi_music_stream.Prelude.Int.{ℤ, pos, negsuc, ltb_ℤ}

-- The integer that a 16-bit pattern stands for.
abbrev pub int16 : ℕ → ℤ
int16 w = if ltb w 32768 then pos w else negsuc (65535 - w)

-- The 16-bit pattern of `a - b`.
abbrev pub offset : ℕ → ℕ → ℕ
offset a b = (a + 65536 - b) % 65536

unfoldable pub distance : ℕ → ℕ → ℤ
distance a b = int16 (offset a b)

-- `distance < 0`: the sequence number lies behind the playhead.
abbrev pub is_behind : ℕ → ℕ → Bool
is_behind seq playhead = ltb_ℤ (distance seq playhead) (pos 0)

-- How soon a sequence number is due: what lies ahead comes first, nearest first, then what lies
-- behind, latest first.
abbrev pub rank : ℕ → ℕ → ℕ
rank seq playhead = let d = offset seq playhead in if ltb d 32768 then d else 32768 + (65535 - d)
