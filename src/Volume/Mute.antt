-- ===== src/Volume/Mute.antt =====
-- The mute gate of michi_volume.c.
use michi_music_stream.Prelude.{
  ℕ, zero, suc, ◌+◌, Bool, true, List, ◌∷◌, ◌++◌, ◌≡◌, refl, arith, ap, ap₂, sym, subst, ◌∙◌,
  length, take, drop, replicate, length-take, length-drop,
}
use michi_music_stream.Prelude.Int.{ℤ, pos, ◌+ℤ◌}
use michi_music_stream.Volume.{Volume, Envelope, eq_ℤ, shift_frac, gain_next_frame, target_q15}
use michi_music_stream.Volume.Samples.{scale_frame, scale_frames, apply_pcm}
use michi_music_stream.Volume.Ramp.{IsSettled, next_same, advance-IsSettled}

silent_next :
    (e : Envelope)
    → IsSettled 0 e
    → IsSettled 0 (gain_next_frame 0 e).0 × ((gain_next_frame 0 e).1 ≡ pos 0)
unfolding gain_next_frame shift_frac ◌+ℤ◌
silent_next e h = (settled, quiet)
  where
    settled : IsSettled 0 (gain_next_frame 0 e).0
    settled = subst (IsSettled 0) (sym (next_same 0 e h.target)) (advance-IsSettled 0 e h)

    quiet : (gain_next_frame 0 e).1 ≡ pos 0
    quiet = ap (λ q. shift_frac (q +ℤ pos 2048)) settled.gain

zeros : ℕ → List ℕ
zeros n = replicate n 0

suc_plus : (m n : ℕ) → suc (m + n) ≡ suc m + n
suc_plus m n = omega arith

zeros_append : (m n : ℕ) → zeros m ++ zeros n ≡ zeros (m + n)
unfolding zeros
zeros_append zero n = ap (λ k. zeros k) (omega arith)
zeros_append (suc m) n = ap (λ xs. 0 ∷ xs) (zeros_append m n) ∙ ap (λ k. zeros k) (suc_plus m n)

quiet_frame :
    (wide : Bool) (q : ℤ) (bs : List ℕ)
    → q ≡ pos 0
    → scale_frame wide q bs ≡ replicate (length bs) 0
unfolding scale_frame eq_ℤ
quiet_frame wide q bs h = subst (λ x. scale_frame wide x bs ≡ replicate (length bs) 0) (sym h) refl

silent_frames :
    (wide : Bool) (fb n : ℕ) (e : Envelope) (bs : List ℕ)
    → IsSettled 0 e
    → (scale_frames wide fb 0 n e bs).1 ≡ replicate (length bs) 0
unfolding scale_frames scale_frame zeros
silent_frames wide fb zero e bs h = refl
silent_frames wide fb (suc n) e bs h =
    ap₂ (λ a b. a ++ b) (quiet_frame wide (gain_next_frame 0 e).1 (take fb bs) (silent_next e h).1)
      (silent_frames wide fb n (gain_next_frame 0 e).0 (drop fb bs) (silent_next e h).0)
    ∙ zeros_append (length (take fb bs)) (length (drop fb bs))
    ∙ ap (λ k. zeros k) (omega (arith, length-take fb bs, length-drop fb bs))

-- Once the ramp rests at silence, a muted stage writes zeros only, at every supported depth.
pub apply-muted :
    (wide : Bool) (v : Volume) (bs : List ℕ)
    → v.muted ≡ true
    → IsSettled 0 v.envelope
    → (apply_pcm wide v bs).1 ≡ replicate (length bs) 0
unfolding apply_pcm target_q15
apply-muted wide v bs h k = simp h (silent_frames wide _ _ v.envelope bs k)
