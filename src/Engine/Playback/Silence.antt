-- ===== src/Engine/Playback/Silence.antt =====
-- `write_silence` of michi_audio.c: its loop ends, and what it sends.
use mathlib.Core.List.{append-nil, append_assoc}
use michi_music_stream.Prelude.{
  ℕ, zero, suc, ◌+◌, ◌-◌, ◌*◌, min, ◌≤◌, ◌<◌, ◌≡◌, refl, sym, ap, ◌∙◌, Bool, true, false, not, ◌||◌,
  List, ◌∷◌, ◌++◌, arith, ◌==◌, ==-cases, inl, inr, if◌then◌else◌, replicate,
}
use michi_music_stream.Engine.{Stream}
use michi_music_stream.Engine.Playback.{Player, silence_rounds, write_silence, sample_bytes}

module _ {W : Type 0} (p : Player W) where
  -- Once there are as many turns as samples, more of them change nothing.
  enough_rounds :
      (n k per_packet samples : ℕ) (w : W)
      → samples ≤ n
      → samples ≤ k
      → 0 < per_packet
      → silence_rounds p n per_packet samples w ≡ silence_rounds p k per_packet samples w
  unfolding silence_rounds
  enough_rounds zero zero per_packet samples w hn hk h = refl
  enough_rounds zero (suc k) per_packet samples w hn hk h = ground arith
  enough_rounds (suc n) zero per_packet samples w hn hk h = ground arith
  enough_rounds (suc n) (suc k) per_packet samples w hn hk h =
      let chunk = min samples per_packet in
      let (on, w1) = p.session_run w in
      let (ok, w2) = p.output_write (replicate (chunk * sample_bytes) 0) w1 in
      elim (==-cases samples 0) [
        | inl (t, e) ↦ rw t refl
        | inr (t, e) ↦ rw t (
            ap
              (λ (r : Bool × W).
                if not on || chunk == 0 then (true, w1) else if ok then r else (false, w2))
              (enough_rounds n k per_packet (samples - chunk) w2 (omega arith) (omega arith) h))
      ]

replicate_add : (a b : ℕ) (x : ℕ) → replicate a x ++ replicate b x ≡ replicate (a + b) x
replicate_add zero b x = ap (λ (k : ℕ). replicate k x) (omega arith)
replicate_add (suc a) b x =
    ap (◌∷◌ x) (replicate_add a b x) ∙ ap (λ (k : ℕ). replicate k x) {x = suc (a + b)} (omega arith)

-- A pipeline that takes every write of a session that goes on; `sent` is what it was given.
pub record TakesAll {W : Type 0} (p : Player W) (sent : W → List ℕ) : Type 0 where
  pub takes : (bytes : List ℕ) (w : W) → (p.output_write bytes w).0 ≡ true
  pub keeps : (bytes : List ℕ) (w : W) → sent (p.output_write bytes w).1 ≡ sent w ++ bytes
  pub goes_on : (w : W) → (p.session_run w).0 ≡ true
  pub same : (w : W) → sent (p.session_run w).1 ≡ sent w

module _ {W : Type 0} (p : Player W) (sent : W → List ℕ) (takes_all : TakesAll p sent) where
  nothing :
      (samples : ℕ) (w : W) → samples ≡ 0 → sent w ≡ sent w ++ replicate (samples * sample_bytes) 0
  nothing samples w e = rw e (sym (append-nil (sent w)))

  rounds_sent :
      (n per_packet samples : ℕ) (w : W)
      → samples ≤ n
      → 0 < per_packet
      → let (ok, w') = silence_rounds p n per_packet samples w in
        (ok ≡ true) × (sent w' ≡ sent w ++ replicate (samples * sample_bytes) 0)
  unfolding silence_rounds
  rounds_sent zero per_packet samples w hn h = (refl, nothing samples w (omega arith))
  rounds_sent (suc n) per_packet samples w hn h =
      let chunk = min samples per_packet in
      let w1 = (p.session_run w).1 in
      let bytes : List ℕ = replicate (chunk * sample_bytes) 0 in
      let w2 = (p.output_write bytes w1).1 in
      elim (==-cases samples 0) [
        | inl (t, e) ↦ rw t (refl, nothing samples w e)
        | inr (t, e) ↦
            let nonzero : (chunk == 0) ≡ false = ground arith in
            let (ok, out) = rounds_sent n per_packet (samples - chunk) w2 (omega arith) h in
            rw (t, takes_all.goes_on w, nonzero, takes_all.takes bytes w1)
              (
                ok,
                out
                    ∙ (ap (λ u. u ++ replicate ((samples - chunk) * sample_bytes) 0)
                          (takes_all.keeps bytes w1 ∙ ap (λ u. u ++ bytes) (takes_all.same w))
                        ∙ (append_assoc (sent w) bytes
                              (replicate ((samples - chunk) * sample_bytes) 0)
                            ∙ ap (λ u. sent w ++ u)
                                (replicate_add (chunk * sample_bytes)
                                    ((samples - chunk) * sample_bytes) 0
                                  ∙ ap (λ (k : ℕ). replicate k 0) (omega arith)))),
              )
      ]

-- To a pipeline that takes every write of a session that goes on, `write_silence` sends exactly four
-- zero bytes for each sample and reports success; and its turns are enough: with any greater number
-- it does the same.
pub write_silence_complete :
    {W : Type 0} (p : Player W) (sent : W → List ℕ) (s : Stream) (samples rounds : ℕ) (w : W)
    → TakesAll p sent
    → 0 < s.samples_per_packet
    → samples ≤ rounds
    → let (ok, w') = write_silence p s samples w in
      (ok ≡ true)
      × (sent w' ≡ sent w ++ replicate (samples * sample_bytes) 0)
      × (silence_rounds p rounds s.samples_per_packet samples w ≡ (ok, w'))
unfolding write_silence
write_silence_complete p sent s samples rounds w all h k =
    let (ok, out) = rounds_sent p sent all samples s.samples_per_packet samples w (omega arith) h in
    (ok, out, enough_rounds p rounds samples s.samples_per_packet samples w k (omega arith) h)
