-- ===== src/Volume/Ramp.antt =====
-- The gain ramp of michi_volume.c: it lands exactly on its target, and never leaves the range of a
-- gain.
use michi_music_stream.Prelude.{
  ℕ, zero, suc, ◌-◌, ◌*◌, true, false, ◌==◌, ◌≡◌, refl, arith, sym, subst, ap, ◌∙◌, if-both,
}
use michi_music_stream.Prelude.Int.{pos}
use michi_music_stream.Volume.{Envelope, frac, eq_ℤ, retarget, advance, gain_next_frame}

-- The envelope after k frames at one target.
unfoldable pub frames : ℕ → ℕ → Envelope → Envelope
frames t zero e = e
frames t (suc k) e = frames t k (gain_next_frame t e).0

-- The envelope rests at the target t.
pub record IsSettled (t : ℕ) (e : Envelope) : Type 0 where
  pub gain : e.gain ≡ pos (t * frac)
  pub target : e.target ≡ pos (t * frac)
  pub frames_left : e.frames_left ≡ 0

eq_ℤ_refl : (n : ℕ) → eq_ℤ (pos n) (pos n) ≡ true
unfolding eq_ℤ
eq_ℤ_refl n = ground arith

retarget_same : (t : ℕ) (e : Envelope) → e.target ≡ pos (t * frac) → retarget t e ≡ e
unfolding retarget
retarget_same t e h = simp (h, eq_ℤ_refl (t * frac))

pub next_same :
    (t : ℕ) (e : Envelope) → e.target ≡ pos (t * frac) → (gain_next_frame t e).0 ≡ advance e
unfolding gain_next_frame
next_same t e h = ap advance (retarget_same t e h)

pub advance-IsSettled : (t : ℕ) (e : Envelope) → IsSettled t e → IsSettled t (advance e)
unfolding advance
advance-IsSettled t e h = simp h.frames_left h

advance-last :
    (t : ℕ) (e : Envelope) → e.target ≡ pos (t * frac) → e.frames_left ≡ 1 → IsSettled t (advance e)
unfolding advance
advance-last t e h l = simp l (record { gain = h; target = h; frames_left = refl })

advance-target : (e : Envelope) → (advance e).target ≡ e.target
unfolding advance
advance-target e =
    if-both (λ (x : Envelope). x.target ≡ e.target) (e.frames_left == 0) refl
      (if-both (λ (x : Envelope). x.target ≡ e.target) (e.frames_left == 1) refl refl)

pub two_or_more :
    (n k : ℕ) → n ≡ suc (suc k) → ((n == 0) ≡ false) × ((n == 1) ≡ false) × (n - 1 ≡ suc k)
two_or_more n k h = (ground arith, ground arith, omega (arith, h))

advance-frames_left :
    (e : Envelope) (k : ℕ) → e.frames_left ≡ suc (suc k) → (advance e).frames_left ≡ suc k
unfolding advance
advance-frames_left e k h =
    simp ((two_or_more e.frames_left k h).0, (two_or_more e.frames_left k h).1)
      (two_or_more e.frames_left k h).2

frames_rest : (t k : ℕ) (e : Envelope) → IsSettled t e → IsSettled t (frames t k e)
unfolding frames
frames_rest t zero e h = h
frames_rest t (suc k) e h =
    frames_rest t k (gain_next_frame t e).0
      (subst (IsSettled t) (sym (next_same t e h.target)) (advance-IsSettled t e h))

frames-lands :
    (t k : ℕ) (e : Envelope)
    → e.target ≡ pos (t * frac)
    → e.frames_left ≡ suc k
    → IsSettled t (frames t (suc k) e)
unfolding frames
frames-lands t zero e h l = subst (IsSettled t) (sym (next_same t e h)) (advance-last t e h l)
frames-lands t (suc k) e h l =
    subst (λ x. IsSettled t (frames t (suc k) x)) (sym (next_same t e h))
      (frames-lands t k (advance e) (advance-target e ∙ h) (advance-frames_left e k l))

retarget_new :
    (t : ℕ) (e : Envelope)
    → eq_ℤ (pos (t * frac)) e.target ≡ false
    → ((retarget t e).target ≡ pos (t * frac)) × ((retarget t e).frames_left ≡ e.ramp_frames)
unfolding retarget
retarget_new t e h = simp h (refl, refl)

-- The first frame at a new target takes the ramp's first step.
first_frame :
    (t : ℕ) (e : Envelope)
    → eq_ℤ (pos (t * frac)) e.target ≡ false
    → (gain_next_frame t e).0 ≡ (gain_next_frame t (retarget t e)).0
unfolding gain_next_frame
first_frame t e h = ap advance (sym (retarget_same t (retarget t e) (retarget_new t e h).0))

-- From any state of the envelope, a ramp of at least one frame to a new target lands on it exactly
-- after its frames, neither short nor past it, and rests there for every frame after.
pub frames-IsSettled :
    (t n j : ℕ) (e : Envelope)
    → e.ramp_frames ≡ suc n
    → eq_ℤ (pos (t * frac)) e.target ≡ false
    → IsSettled t (frames t j (frames t (suc n) e))
unfolding frames
frames-IsSettled t n j e r h = frames_rest t j (frames t (suc n) e) (
    subst (λ x. IsSettled t (frames t n x)) (sym (first_frame t e h))
      (frames-lands t n (retarget t e) (retarget_new t e h).0 ((retarget_new t e h).1 ∙ r)))
