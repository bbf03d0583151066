-- ===== src/Volume/Samples.antt =====
-- The PCM side of `michi_volume_apply`: bytes, samples and frames.
use michi_music_stream.Prelude.{
  ℕ, zero, suc, ◌+◌, ◌-◌, ◌*◌, ◌/◌, ◌%◌, Bool, true, false, List, [], ◌∷◌, ◌++◌, ltb, if◌then◌else◌,
  ◌==◌, length, take, drop, replicate,
}
use michi_music_stream.Prelude.Int.{ℤ, pos, negsuc, sub_ℕ}
use michi_music_stream.Volume.{
  Envelope, Volume, gain_one, div_toward_zero, eq_ℤ, gain_next_frame, target_q15,
}

-- The integer of a two's complement pattern, with its sign bit's weight.
unfoldable pub signed : ℕ → ℕ → ℤ
signed half n = if ltb n half then pos n else sub_ℕ n (2 * half)

-- The pattern of an integer in two's complement.
unfoldable pub pattern_of : ℕ → ℤ → ℕ
pattern_of half (pos n) = n % (2 * half)
pattern_of half (negsuc n) = 2 * half - 1 - n % (2 * half)

-- `value * gain`, for a gain of either sign.
unfoldable pub times : ℤ → ℤ → ℤ
times (pos a) (pos b) = pos (a * b)
times (pos a) (negsuc b) = sub_ℕ 0 (a * suc b)
times (negsuc a) (pos b) = sub_ℕ 0 (suc a * b)
times (negsuc a) (negsuc b) = pos (suc a * suc b)

unfoldable pub scale : ℤ → ℤ → ℤ
scale gain value = div_toward_zero (times value gain) gain_one

-- A little-endian sample of 16 bits.
unfoldable pub scale_16 : ℤ → ℕ → ℕ → List ℕ
scale_16 gain b0 b1 =
    let out = pattern_of 32768 (scale gain (signed 32768 (b0 + 256 * b1))) in
    (out % 256) ∷ (out / 256) ∷ []

-- A little-endian sample of 24 bits.
unfoldable pub scale_24 : ℤ → ℕ → ℕ → ℕ → List ℕ
scale_24 gain b0 b1 b2 =
    let out = pattern_of 8388608 (scale gain (signed 8388608 (b0 + 256 * b1 + 65536 * b2))) in
    (out % 256) ∷ (out / 256 % 256) ∷ (out / 65536) ∷ []

-- The samples of a frame, or of any run of whole samples.
unfoldable pub scale_samples_16 : ℤ → List ℕ → List ℕ
scale_samples_16 gain (b0 ∷ b1 ∷ rest) = scale_16 gain b0 b1 ++ scale_samples_16 gain rest
scale_samples_16 gain bs = bs

unfoldable pub scale_samples_24 : ℤ → List ℕ → List ℕ
scale_samples_24 gain (b0 ∷ b1 ∷ b2 ∷ rest) = scale_24 gain b0 b1 b2 ++ scale_samples_24 gain rest
scale_samples_24 gain bs = bs

-- A frame under the gain of its turn; `wide` is the depth of 24 bits.
unfoldable pub scale_frame : Bool → ℤ → List ℕ → List ℕ
scale_frame wide gain frame =
    if eq_ℤ gain (pos gain_one)
    then frame
    else if eq_ℤ gain (pos 0)
    then replicate (length frame) 0
    else if wide
    then scale_samples_24 gain frame
    else scale_samples_16 gain frame

-- The loop over the complete frames; the bytes after them are silenced.
unfoldable pub scale_frames : Bool → ℕ → ℕ → ℕ → Envelope → List ℕ → Envelope × List ℕ
scale_frames wide frame_bytes target zero e buf = (e, replicate (length buf) 0)
scale_frames wide frame_bytes target (suc n) e buf =
    let (e1, gain) = gain_next_frame target e in
    let (e2, rest) = scale_frames wide frame_bytes target n e1 (drop frame_bytes buf) in
    (e2, scale_frame wide gain (take frame_bytes buf) ++ rest)

abbrev pub frame_bytes_of : Bool → ℕ → ℕ
frame_bytes_of wide channels = (if wide then 3 else 2) * channels

unfoldable pub apply_pcm : Bool → Volume → List ℕ → Volume × List ℕ
apply_pcm wide v buf =
    let frame_bytes = frame_bytes_of wide v.pcm_channels in
    let (e, out) =
      scale_frames wide frame_bytes (target_q15 v) (length buf / frame_bytes) v.envelope buf in
    (record v { envelope = e }, out)

-- `michi_volume_apply`: any other depth is silenced under mute and left alone otherwise.
unfoldable pub apply : ℕ → Volume → List ℕ → Volume × List ℕ
apply bit_depth v buf =
    if length buf == 0
    then (v, buf)
    else if bit_depth == 16
    then apply_pcm false v buf
    else if bit_depth == 24
    then apply_pcm true v buf
    else if v.muted
    then (v, replicate (length buf) 0)
    else (record v { digital_warned = true }, buf)
