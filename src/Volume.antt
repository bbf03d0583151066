-- ===== src/Volume.antt =====
-- The volume stage of firmware/components/michi_volume/michi_volume.c: the configured level, the gain
-- ramp and the scaling of PCM samples.
pub mod Samples
pub mod Ramp
pub mod Range
pub mod Scaling
pub mod Mute
use michi_music_stream.Prelude.{
  ℕ, suc, ◌+◌, ◌-◌, ◌*◌, ◌/◌, ◌%◌, ◌^◌, Bool, true, false, ◌&&◌, ◌||◌, not, ltb, if◌then◌else◌,
  ◌==◌, EspErr, is_ok,
}
use michi_music_stream.Prelude.Int.{ℤ, pos, negsuc, ◌+ℤ◌, ◌-ℤ◌, sub_ℕ}

-- The statics that the I2S consumer writes; gains are signed Q27 numbers.
pub record Envelope : Type 0 where
  pub ramp_frames : ℕ
  pub gain : ℤ
  pub target : ℤ
  pub step : ℤ
  pub frames_left : ℕ

-- MICHI_GAIN_ONE_Q15.
abbrev pub gain_one : ℕ
gain_one = 32768

-- `1 << MICHI_GAIN_FRAC_BITS`.
abbrev pub frac : ℕ
frac = 4096

-- C's division, which rounds towards 0, by a positive number.
unfoldable pub div_toward_zero : ℤ → ℕ → ℤ
div_toward_zero (pos n) k = pos (n / k)
div_toward_zero (negsuc n) k = sub_ℕ 0 (suc n / k)

-- The arithmetic shift right by MICHI_GAIN_FRAC_BITS.
unfoldable pub shift_frac : ℤ → ℤ
shift_frac (pos n) = pos (n / frac)
shift_frac (negsuc n) = negsuc (n / frac)

-- `a != b` on integers is the negation.
unfoldable pub eq_ℤ : ℤ → ℤ → Bool
eq_ℤ (pos a) (pos b) = a == b
eq_ℤ (negsuc a) (negsuc b) = a == b
eq_ℤ a b = false

-- A new target starts a ramp from the present gain.
unfoldable pub retarget : ℕ → Envelope → Envelope
retarget target_q15 e =
    let requested = pos (target_q15 * frac) in
    if eq_ℤ requested e.target then e else record e {
      target = requested;
      frames_left = e.ramp_frames;
      step =
          if ltb 0 e.ramp_frames
          then div_toward_zero (requested -ℤ e.gain) e.ramp_frames
          else pos 0;
    }

-- A frame of the ramp; its last one lands on the target.
unfoldable pub advance : Envelope → Envelope
advance e =
    if e.frames_left == 0
    then e
    else if e.frames_left == 1
    then record e { frames_left = 0; gain = e.target }
    else record e { frames_left = e.frames_left - 1; gain = e.gain +ℤ e.step }

-- `gain_next_frame_q15`: the statics after it, and the gain in Q15, rounded.
unfoldable pub gain_next_frame : ℕ → Envelope → Envelope × ℤ
gain_next_frame target_q15 e0 =
    let e = advance (retarget target_q15 e0) in (e, shift_frac (e.gain +ℤ pos (frac / 2)))

unfoldable pub reset_envelope : Envelope → Envelope
reset_envelope e = record e { gain = pos 0; target = pos 0; step = pos 0; frames_left = 0 }

-- The statics of michi_volume.c.
pub record Volume : Type 0 where
  pub volume : ℕ
  pub hw_active : Bool
  pub muted : Bool
  pub digital_warned : Bool
  pub pcm_channels : ℕ
  pub envelope : Envelope

unfoldable pub configure_pcm : ℕ → ℕ → Volume → EspErr × Volume
configure_pcm sample_rate channels v =
    if ltb sample_rate 8000
      || (ltb 96000 sample_rate || (not (channels == 1) && not (channels == 2)))
    then (EspErr.invalid_arg, v)
    else (
      EspErr.ok,
      record v {
        pcm_channels = channels;
        envelope = reset_envelope (record v.envelope { ramp_frames = sample_rate / 100 });
      },
    )

-- `michi_volume_init`, with the capabilities of the DAC and its answer to a volume write.
unfoldable pub init : Bool → Bool → EspErr → Volume → EspErr × Volume
init hardware_volume initialized dac v = (
  EspErr.ok,
  record v {
    hw_active = hardware_volume && (initialized && is_ok dac);
    volume = 100;
    muted = false;
    digital_warned = false;
    envelope = record v.envelope { gain = pos 0; target = pos 0; frames_left = 0 };
  },
)

-- `michi_volume_set`, with the DAC's answer.
unfoldable pub set_level : EspErr → ℕ → Volume → EspErr × Volume
set_level dac v s = (
  EspErr.ok,
  record s { volume = if ltb 100 v then 100 else v; hw_active = s.hw_active && is_ok dac },
)

unfoldable pub get_level : Volume → ℕ
get_level v = v.volume

unfoldable pub set_muted : Bool → Volume → Volume
set_muted b v = record v { muted = b }

-- The gain that `michi_volume_apply` aims at.
unfoldable pub target_q15 : Volume → ℕ
target_q15 v = if v.muted then 0 else if v.hw_active then gain_one else v.volume * gain_one / 100
