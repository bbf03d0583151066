-- ===== src/Tests/Volume.antt =====
-- Runs of the volume stage.
use michi_music_stream.Prelude.{true, false, [], ◌∷◌, ◌≡◌, refl, arith}
use michi_music_stream.Prelude.Int.{pos}
use michi_music_stream.Volume.{Envelope, Volume, eq_ℤ, gain_next_frame}
use michi_music_stream.Volume.Samples.{scale, scale_16}
use michi_music_stream.Volume.Ramp.{frames, IsSettled, frames-IsSettled}
use michi_music_stream.Volume.Range.{IsOnCourse, rising, IsGain, gain_next_frame-IsOnCourse}
use michi_music_stream.Volume.Scaling.{sample_16, scale_16-exact}

-- A stage at rest, with a ramp of four frames.
abbrev resting : Envelope
resting = record { ramp_frames = 4; gain = pos 0; target = pos 0; step = pos 0; frames_left = 0 }

abbrev muted_stage : Volume
muted_stage = record {
  volume = 80;
  hw_active = false;
  muted = true;
  digital_warned = false;
  pcm_channels = 2;
  envelope = resting;
}

frames-IsSettled_example : IsSettled 16384 (frames 16384 2 (frames 16384 4 resting))
unfolding eq_ℤ
frames-IsSettled_example = frames-IsSettled 16384 3 2 resting refl refl

gain_next_frame-IsOnCourse_example :
    IsOnCourse (gain_next_frame 32768 resting).0 × IsGain (gain_next_frame 32768 resting).1
gain_next_frame-IsOnCourse_example =
    gain_next_frame-IsOnCourse 32768 resting (omega arith)
      (rising 0 0 0 refl refl refl (omega arith) (omega arith))

scale_16-exact_example :
    sample_16 (scale_16 (pos 20000) 0 128) ≡ scale (pos 20000) (sample_16 (0 ∷ 128 ∷ []))
scale_16-exact_example = scale_16-exact 20000 0 128 (omega arith) (omega arith) (omega arith)
