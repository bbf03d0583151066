-- ===== src/Volume/Range.antt =====
-- The range of the gain in michi_volume.c: whatever the targets, it stays between silence and one.
use michi_music_stream.Prelude.{
  ℕ, zero, suc, ◌+◌, ◌-◌, ◌*◌, ◌/◌, ◌≤◌, ◌<◌, ltb, if◌then◌else◌, ◌≡◌, refl, arith, sym, subst, ◌⊎◌,
  inl, inr, if-both, ltb-cases,
}
use michi_music_stream.Volume.Ramp.{two_or_more}
use native.Mathlib.Nat.{mul-suc, div-mul-le_self}
use michi_music_stream.Prelude.Int.{ℤ, pos, negsuc, ◌+ℤ◌, ◌-ℤ◌, sub_ℕ}
use michi_music_stream.Volume.{
  Envelope, gain_one, frac, div_toward_zero, shift_frac, eq_ℤ, retarget, advance, gain_next_frame,
}

-- The largest gain in Q27.
abbrev gain_max : ℕ
gain_max = gain_one * frac

-- The ramp is on its course: it moves towards its target by steps that do not pass it.
pub data IsOnCourse (e : Envelope) : Type 0 where
  rising :
      (g t s : ℕ)
      → e.gain ≡ pos g
      → e.target ≡ pos t
      → e.step ≡ pos s
      → g + s * e.frames_left ≤ t
      → t ≤ 134217728
      → IsOnCourse e
  falling :
      (g t s : ℕ)
      → e.gain ≡ pos g
      → e.target ≡ pos t
      → e.step ≡ sub_ℕ 0 s
      → t + s * e.frames_left ≤ g
      → g ≤ 134217728
      → IsOnCourse e

pos_sub : (r g : ℕ) → g ≤ r → pos r -ℤ pos g ≡ pos (r - g)
unfolding ◌-ℤ◌
pos_sub r g h = ground arith

neg_sub : (r g : ℕ) → r < g → pos r -ℤ pos g ≡ negsuc (g - r - 1)
unfolding ◌-ℤ◌
neg_sub r g h = ground arith

pos_add_neg : (g s : ℕ) → s ≤ g → pos g +ℤ sub_ℕ 0 s ≡ pos (g - s)
unfolding ◌+ℤ◌
pos_add_neg g s h = ground arith

pos_add : (g s : ℕ) → pos g +ℤ pos s ≡ pos (g + s)
unfolding ◌+ℤ◌
pos_add g s = ground arith

mul_one_more : (s l : ℕ) → s * suc l ≡ s + s * l
mul_one_more s l = omega (arith, mul-suc s l)

div_le : (x n : ℕ) → x / n * n ≤ x
div_le x n = div-mul-le_self x n

advance_moves :
    (e : Envelope) (l : ℕ)
    → e.frames_left ≡ suc (suc l)
    → advance e ≡ record e { frames_left = suc l; gain = e.gain +ℤ e.step }
unfolding advance
advance_moves e l h = simp (
  (two_or_more e.frames_left l h).0,
  (two_or_more e.frames_left l h).1,
  (two_or_more e.frames_left l h).2,
)

advance_rests : (e : Envelope) → e.frames_left ≡ 0 → advance e ≡ e
unfolding advance
advance_rests e h = simp h

advance_lands :
    (e : Envelope) → e.frames_left ≡ 1 → advance e ≡ record e { frames_left = 0; gain = e.target }
unfolding advance
advance_lands e h = simp h

count_cases : (n : ℕ) → (n ≡ 0) ⊎ ((n ≡ 1) ⊎ ((l : ℕ) × (n ≡ suc (suc l))))
count_cases zero = inl refl
count_cases (suc zero) = inr (inl refl)
count_cases (suc (suc l)) = inr (inr (l, refl))

advance-IsOnCourse : (e : Envelope) → IsOnCourse e → IsOnCourse (advance e)
advance-IsOnCourse e c = elim (count_cases e.frames_left) [
  | inl h ↦ subst IsOnCourse (sym (advance_rests e h)) c
  | inr (inl h) ↦ subst IsOnCourse (sym (advance_lands e h)) (landed c)
  | inr (inr (l, h)) ↦ subst IsOnCourse (sym (advance_moves e l h)) (moved l h c)
]
  where
    landed : IsOnCourse e → IsOnCourse (record e { frames_left = 0; gain = e.target })
    landed (rising g t s hg ht hs le bound) = rising t t s ht ht hs (omega arith) bound
    landed (falling g t s hg ht hs le bound) =
        falling t t s ht ht hs (omega arith) (omega (arith, le, bound))

    moved :
        (l : ℕ)
        → e.frames_left ≡ suc (suc l)
        → IsOnCourse e
        → IsOnCourse (record e { frames_left = suc l; gain = e.gain +ℤ e.step })
    moved l h (rising g t s hg ht hs le bound) =
        rising (g + s) t s (rw (hg, hs) (pos_add g s)) ht hs
          (omega (arith, subst (λ n. g + s * n ≤ t) h le, mul_one_more s (suc l))) bound
    moved l h (falling g t s hg ht hs le bound) =
        falling (g - s) t s
          (rw (hg, hs) (pos_add_neg g s (omega (arith, le', mul_one_more s (suc l))))) ht hs
          (omega (arith, le', mul_one_more s (suc l))) (omega (arith, bound))
      where
        le' : t + s * suc (suc l) ≤ g
        le' = subst (λ n. t + s * n ≤ g) h le

-- A ramp to the target r, from a gain g in range.
aimed : ℕ → Envelope → Envelope
aimed r e = record e {
  target = pos r;
  frames_left = e.ramp_frames;
  step = if ltb 0 e.ramp_frames then div_toward_zero (pos r -ℤ e.gain) e.ramp_frames else pos 0;
}

step_zero : sub_ℕ 0 0 ≡ pos 0
step_zero = refl

aimed-IsOnCourse :
    (r g : ℕ) (e : Envelope)
    → e.gain ≡ pos g
    → r ≤ 134217728
    → g ≤ 134217728
    → IsOnCourse (aimed r e)
unfolding aimed div_toward_zero
aimed-IsOnCourse r g e hg hr hb = elim (ltb-cases r g) [
  | inl (a, l) ↦ elim (ltb-cases 0 e.ramp_frames) [
    | inl (b, m) ↦
        falling g r (suc (g - r - 1) / e.ramp_frames) hg refl (simp (b, hg, neg_sub r g l))
          (omega (arith, div_le (suc (g - r - 1)) e.ramp_frames, l)) hb
    | inr (b, m) ↦ falling g r 0 hg refl (simp b) (omega (arith, l)) hb
  ]
  | inr (a, l) ↦ elim (ltb-cases 0 e.ramp_frames) [
    | inl (b, m) ↦
        rising g r ((r - g) / e.ramp_frames) hg refl (simp (b, hg, pos_sub r g l))
          (omega (arith, div_le (r - g) e.ramp_frames, l)) hr
    | inr (b, m) ↦ rising g r 0 hg refl (simp b) (omega (arith, l)) hr
  ]
]

-- The gain of a ramp on its course is in range.
course_gain : (e : Envelope) → IsOnCourse e → (g : ℕ) × (e.gain ≡ pos g) × (g ≤ 134217728)
course_gain e (rising g t s hg ht hs le bound) = (g, hg, omega (arith, le, bound))
course_gain e (falling g t s hg ht hs le bound) = (g, hg, bound)

retarget-IsOnCourse :
    (t : ℕ) (e : Envelope) → t ≤ gain_one → IsOnCourse e → IsOnCourse (retarget t e)
unfolding retarget aimed
retarget-IsOnCourse t e h c = if-both IsOnCourse (eq_ℤ (pos (t * frac)) e.target) c (
    aimed-IsOnCourse (t * frac) (course_gain e c).0 e (course_gain e c).1 (omega (arith, h))
      (course_gain e c).2)

rounded :
    (g : ℕ)
    → g ≤ 134217728
    → (shift_frac (pos g +ℤ pos (frac / 2)) ≡ pos ((g + 2048) / 4096)) × ((g + 2048) / 4096 ≤ 32768)
unfolding shift_frac ◌+ℤ◌
rounded g h = (ground arith, omega (arith, h))

-- A gain in Q15 between silence and one.
pub data IsGain (q : ℤ) : Type 0 where
  is_gain : (n : ℕ) → q ≡ pos n → n ≤ gain_one → IsGain q

-- For targets between silence and one the ramp stays on its course, and every frame's gain lies
-- between silence and one.
pub gain_next_frame-IsOnCourse :
    (t : ℕ) (e : Envelope)
    → t ≤ gain_one
    → IsOnCourse e
    → IsOnCourse (gain_next_frame t e).0 × IsGain (gain_next_frame t e).1
unfolding gain_next_frame
gain_next_frame-IsOnCourse t e h c =
    (next, is_gain ((g.0 + 2048) / 4096) (rw g.1 (rounded g.0 g.2).0) (rounded g.0 g.2).1)
  where
    next : IsOnCourse (advance (retarget t e))
    next = advance-IsOnCourse (retarget t e) (retarget-IsOnCourse t e h c)

    g : (n : ℕ) × ((advance (retarget t e)).gain ≡ pos n) × (n ≤ 134217728)
    g = course_gain (advance (retarget t e)) next
