-- ===== src/Rtp/BufferPolicy.antt =====
-- Prefill and recovery policy of firmware/components/michi_audio/michi_audio_buffer.c.
use michi_music_stream.Prelude.{
  ℕ, ◌+◌, ◌-◌, ◌*◌, ◌/◌, ◌≤◌, ◌<◌, ◌≡◌, ◌||◌, arith, ltb, ◌==◌, if◌then◌else◌, EspErr,
}

-- MICHI_AUDIO_BUFFER_MS_MIN and _MAX.
abbrev pub buffer_ms_min : ℕ
buffer_ms_min = 50

abbrev pub buffer_ms_max : ℕ
buffer_ms_max = 500

-- MICHI_AUDIO_PACKET_MS: 480 samples at 48000 Hz.
abbrev pub packet_ms : ℕ
packet_ms = 480 * 1000 / 48000

unfoldable pub validate_buffer_ms : ℕ → EspErr
validate_buffer_ms buffer_ms =
    if ltb buffer_ms buffer_ms_min || ltb buffer_ms_max buffer_ms
    then EspErr.invalid_arg
    else EspErr.ok

unfoldable pub prefill_target_ext : ℕ → ℕ → ℕ
prefill_target_ext buffer_ms max_packets =
    let prefill_ms = if ltb 0 buffer_ms then buffer_ms else 80 in
    let step = if packet_ms == 0 then 1 else packet_ms in
    let target = (prefill_ms + step - 1) / step in
    if ltb max_packets target then max_packets else target

-- Without CONFIG_MICHI_AUDIO_JITTER_MAX_MS.
unfoldable pub prefill_target : ℕ → ℕ
prefill_target buffer_ms = prefill_target_ext buffer_ms (buffer_ms_max / 10)

unfoldable pub recovery_deadline_ms : ℕ → ℕ
recovery_deadline_ms buffer_ms =
    let ms = if ltb 0 buffer_ms then buffer_ms else 80 in
    let deadline = ms + 250 in
    let floor = if ltb deadline 500 then 500 else deadline in if ltb 1000 floor then 1000 else floor

unfoldable pub check_capacity_invariant : ℕ → ℕ → EspErr
check_capacity_invariant jitter_max_ms advertised_max_ms =
    if ltb jitter_max_ms advertised_max_ms then EspErr.invalid_state else EspErr.ok

-- For a buffer that validation accepts, prefill asks for the fewest packets that hold at least its
-- milliseconds, and never for more packets than the jitter buffer has.
pub prefill_target-fewest :
    (buffer_ms : ℕ)
    → validate_buffer_ms buffer_ms ≡ EspErr.ok
    → (buffer_ms ≤ packet_ms * prefill_target buffer_ms)
      × (packet_ms * prefill_target buffer_ms < buffer_ms + packet_ms)
      × (prefill_target buffer_ms ≤ buffer_ms_max / 10)
unfolding validate_buffer_ms prefill_target prefill_target_ext
prefill_target-fewest buffer_ms h = (ground arith, ground arith, ground arith)

-- The recovery deadline lies between half a second and a second for any request.
pub recovery_deadline_bounds :
    (buffer_ms : ℕ)
    → (500 ≤ recovery_deadline_ms buffer_ms) × (recovery_deadline_ms buffer_ms ≤ 1000)
unfolding recovery_deadline_ms
recovery_deadline_bounds buffer_ms = (ground arith, ground arith)

-- For a buffer that validation accepts the recovery deadline leaves at least a quarter of a second
-- beyond the buffer, and lies between half a second and a second.
pub recovery_deadline-slack :
    (buffer_ms : ℕ)
    → validate_buffer_ms buffer_ms ≡ EspErr.ok
    → (buffer_ms + 250 ≤ recovery_deadline_ms buffer_ms)
      × (500 ≤ recovery_deadline_ms buffer_ms)
      × (recovery_deadline_ms buffer_ms ≤ 1000)
unfolding validate_buffer_ms recovery_deadline_ms
recovery_deadline-slack buffer_ms h = (ground arith, ground arith, ground arith)
