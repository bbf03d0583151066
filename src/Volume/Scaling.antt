-- ===== src/Volume/Scaling.antt =====
-- The scaling of samples in michi_volume.c: no overflow, the buffer's length kept, and silence.
use michi_music_stream.Prelude.{
  ℕ, zero, suc, ◌+◌, ◌-◌, ◌*◌, ◌/◌, ◌%◌, ◌≤◌, ◌<◌, Bool, true, false, List, [], ◌∷◌, ◌==◌, ◌≡◌,
  refl, arith, ap, sym, subst, ◌∙◌, length, take, drop, length-append, length-take, length-drop,
  length-replicate, if-both, ltb-cases, inl, inr, ap₂,
}
use native.Mathlib.Nat.{mul-le-mul_left}
use michi_music_stream.Prelude.Int.{ℤ, pos, negsuc, sub_ℕ}
use michi_music_stream.Volume.{Volume, Envelope, gain_one, div_toward_zero, eq_ℤ, gain_next_frame}
use michi_music_stream.Volume.Samples.{
  signed, pattern_of, times, scale, scale_16, scale_24, scale_samples_16, scale_samples_24,
  scale_frame, scale_frames, apply_pcm, apply,
}

-- The integer that a little-endian sample of 16 bits stands for.
abbrev pub sample_16 : List ℕ → ℤ
sample_16 (b0 ∷ b1 ∷ rest) = signed 32768 (b0 + 256 * b1)
sample_16 bs = pos 0

quotient_le : (a g : ℕ) → g ≤ 32768 → a * g / 32768 ≤ a
quotient_le a g h = omega (arith, mul-le-mul_left a h)

-- In range, the pattern of an integer stands for it.
signed-pattern_of_pos : (n : ℕ) → n < 32768 → signed 32768 (pattern_of 32768 (pos n)) ≡ pos n
unfolding signed pattern_of
signed-pattern_of_pos n h = ground arith

signed-pattern_of_neg :
    (n : ℕ) → n ≤ 32768 → signed 32768 (pattern_of 32768 (sub_ℕ 0 n)) ≡ sub_ℕ 0 n
unfolding signed pattern_of
signed-pattern_of_neg n h = ground arith

bytes_of : (n : ℕ) → n % 256 + 256 * (n / 256) ≡ n
bytes_of n = omega arith

-- The magnitude of a scaled sample is at most the sample's.
scale_pos : (a g : ℕ) → scale (pos g) (pos a) ≡ pos (a * g / 32768)
unfolding scale times div_toward_zero
scale_pos a g = refl

minus_suc : (a : ℕ) → sub_ℕ 0 (suc a) ≡ negsuc a
minus_suc a = ground arith

div_minus : (m : ℕ) → div_toward_zero (sub_ℕ 0 m) 32768 ≡ sub_ℕ 0 (m / 32768)
unfolding div_toward_zero
div_minus zero = refl
div_minus (suc m) = rw (minus_suc m) refl

scale_neg : (a g : ℕ) → scale (pos g) (sub_ℕ 0 a) ≡ sub_ℕ 0 (a * g / 32768)
unfolding scale times div_toward_zero
scale_neg zero g = none_left (0 * g) (omega arith)
  where
    none_left : (m : ℕ) → m ≡ 0 → pos (m / 32768) ≡ sub_ℕ 0 (m / 32768)
    none_left m h = ground arith
scale_neg (suc a) g =
    subst (λ x. scale (pos g) x ≡ sub_ℕ 0 (suc a * g / 32768)) (sym (minus_suc a))
      (div_minus (suc a * g))

signed_low : (n : ℕ) → n < 32768 → signed 32768 n ≡ pos n
unfolding signed
signed_low n h = ground arith

signed_high : (n : ℕ) → 32768 ≤ n → n < 65536 → signed 32768 n ≡ sub_ℕ 0 (65536 - n)
unfolding signed
signed_high n h k = ground arith

scaled-exact :
    (g n : ℕ)
    → g ≤ gain_one
    → n < 65536
    → signed 32768 (pattern_of 32768 (scale (pos g) (signed 32768 n)))
      ≡ scale (pos g) (signed 32768 n)
scaled-exact g n h l = elim (ltb-cases n 32768) [
  | inl (e, low) ↦
      rw (signed_low n low, scale_pos n g)
        (signed-pattern_of_pos (n * g / 32768) (omega (arith, quotient_le n g h, low)))
  | inr (e, high) ↦
      rw (signed_high n high l, scale_neg (65536 - n) g)
        (signed-pattern_of_neg ((65536 - n) * g / 32768)
          (omega (arith, quotient_le (65536 - n) g h, high)))
]

-- For every 16-bit sample and every gain up to one, the bytes written stand for exactly the scaled
-- value: the narrowing to 16 bits never overflows.
pub scale_16-exact :
    (g b0 b1 : ℕ)
    → g ≤ gain_one
    → b0 < 256
    → b1 < 256
    → sample_16 (scale_16 (pos g) b0 b1) ≡ scale (pos g) (sample_16 (b0 ∷ b1 ∷ []))
unfolding scale_16
scale_16-exact g b0 b1 h k l =
    ap (signed 32768) (bytes_of (pattern_of 32768 (scale (pos g) (signed 32768 (b0 + 256 * b1)))))
    ∙ scaled-exact g (b0 + 256 * b1) h (omega arith)

length-scale_samples_16 : (q : ℤ) (bs : List ℕ) → length (scale_samples_16 q bs) ≡ length bs
unfolding scale_samples_16 scale_16
length-scale_samples_16 q (a ∷ b ∷ bs) = ap (λ n. suc (suc n)) (length-scale_samples_16 q bs)
length-scale_samples_16 q bs = refl

length-scale_samples_24 : (q : ℤ) (bs : List ℕ) → length (scale_samples_24 q bs) ≡ length bs
unfolding scale_samples_24 scale_24
length-scale_samples_24 q (a ∷ b ∷ c ∷ bs) =
    ap (λ n. suc (suc (suc n))) (length-scale_samples_24 q bs)
length-scale_samples_24 q bs = refl

length-scale_frame :
    (wide : Bool) (q : ℤ) (bs : List ℕ) → length (scale_frame wide q bs) ≡ length bs
unfolding scale_frame
length-scale_frame wide q bs = if-both Same (eq_ℤ q (pos gain_one)) refl (
    if-both Same (eq_ℤ q (pos 0)) (length-replicate (length bs) 0)
      (if-both Same wide (length-scale_samples_24 q bs) (length-scale_samples_16 q bs)))
  where
    Same : List ℕ → Type 0
    Same out = length out ≡ length bs

length_split : (n : ℕ) (bs : List ℕ) → length (take n bs) + length (drop n bs) ≡ length bs
length_split n bs = omega (arith, length-take n bs, length-drop n bs)

length-scale_frames :
    (wide : Bool) (fb t n : ℕ) (e : Envelope) (bs : List ℕ)
    → length (scale_frames wide fb t n e bs).1 ≡ length bs
unfolding scale_frames
length-scale_frames wide fb t zero e bs = length-replicate (length bs) 0
length-scale_frames wide fb t (suc n) e bs =
    length-append (scale_frame wide (gain_next_frame t e).1 (take fb bs))
      (scale_frames wide fb t n (gain_next_frame t e).0 (drop fb bs)).1
    ∙ ap₂ (λ a b. a + b) (length-scale_frame wide (gain_next_frame t e).1 (take fb bs))
        (length-scale_frames wide fb t n (gain_next_frame t e).0 (drop fb bs))
    ∙ length_split fb bs

-- The volume stage keeps the length of every buffer, at every depth, gain and state of the ramp.
pub length-apply :
    (bit_depth : ℕ) (v : Volume) (bs : List ℕ) → length (apply bit_depth v bs).1 ≡ length bs
unfolding apply apply_pcm
length-apply bit_depth v bs = if-both Same (length bs == 0) refl (
    if-both Same (bit_depth == 16) (length-scale_frames false _ _ _ _ bs) (
      if-both Same (bit_depth == 24) (length-scale_frames true _ _ _ _ bs)
        (if-both Same v.muted (length-replicate (length bs) 0) refl)))
  where
    Same : Volume × List ℕ → Type 0
    Same r = length r.1 ≡ length bs
