-- ===== src/Output/Config.antt =====
-- The checks and the geometry of `michi_audio_output_init` in michi_audio_output.c: which
-- configurations it takes, and the ring, the frame and the prefill that they determine.
-- GPIO_NUM_MAX and the Kconfig default of the ring's size are parameters.
use Prim.Native.Nat.{bit_and}
use michi_music_stream.Prelude.{
  ℕ, ◌-◌, ◌*◌, ◌/◌, ◌%◌, ◌^◌, Bool, false, not, ◌&&◌, ◌||◌, Option, none, some, List, ltb, leb,
  ◌==◌, if◌then◌else◌,
}
use michi_music_stream.Output.Ring.{Ring}
use michi_music_stream.Prelude.Int.{ℤ, pos, negsuc}

-- `michi_audio_output_config_t`.
pub record Config : Type 0 where
  pub sample_rate : ℕ
  pub bit_depth : ℕ
  pub channels : ℕ
  pub buffer_ms : ℕ
  pub ring_buffer_kb : ℕ
  pub bclk : ℤ
  pub lrck : ℤ
  pub din : ℤ
  pub mclk : ℤ

-- What an accepted configuration determines: the size of the ring, `s_prefill_bytes` and
-- `s_frame_bytes`.
pub record Geometry : Type 0 where
  pub ring_size : ℕ
  pub prefill_bytes : ℕ
  pub frame_bytes : ℕ

-- Products in `size_t`.
abbrev mul_size : ℕ → ℕ → ℕ
mul_size a b = a * b % 2 ^ 32

unfoldable pub pin_ok : ℕ → ℤ → Bool
pin_ok gpio_num_max (pos n) = ltb n gpio_num_max
pin_ok gpio_num_max (negsuc n) = false

is_minus_one : ℤ → Bool
is_minus_one (pos n) = false
is_minus_one (negsuc n) = n == 0

-- 0 stands for the Kconfig default.
unfoldable pub ring_kb_of : ℕ → Config → ℕ
ring_kb_of default_kb cfg = if cfg.ring_buffer_kb == 0 then default_kb else cfg.ring_buffer_kb

unfoldable pub ring_kb_ok : ℕ → Bool
ring_kb_ok kb = not (ltb kb 16 || (ltb 16384 kb || not (bit_and kb (kb - 1) == 0)))

unfoldable pub format_ok : Config → Bool
format_ok cfg =
    not (ltb cfg.sample_rate 8000 || ltb 96000 cfg.sample_rate)
    && (cfg.bit_depth == 16 || cfg.bit_depth == 24)
    && not (ltb cfg.channels 1 || ltb 2 cfg.channels)
    && not (ltb cfg.buffer_ms 10 || ltb 1000 cfg.buffer_ms)

unfoldable pub pins_ok : ℕ → Config → Bool
unfolding pin_ok is_minus_one
pins_ok gpio_num_max cfg =
    pin_ok gpio_num_max cfg.bclk
    && pin_ok gpio_num_max cfg.lrck
    && pin_ok gpio_num_max cfg.din
    && (is_minus_one cfg.mclk || pin_ok gpio_num_max cfg.mclk)

unfoldable pub geometry : ℕ → Config → Geometry
geometry ring_kb cfg =
    let bytes_per_ms =
      mul_size (mul_size cfg.sample_rate cfg.channels) (cfg.bit_depth / 8) / 1000 in
    record {
      ring_size = mul_size ring_kb 1024;
      prefill_bytes = mul_size bytes_per_ms cfg.buffer_ms;
      frame_bytes = mul_size (cfg.bit_depth / 8) cfg.channels;
    }

-- `none` is ESP_ERR_INVALID_ARG.
unfoldable pub configure : ℕ → ℕ → Config → Option Geometry
configure gpio_num_max default_kb cfg =
    let ring_kb = ring_kb_of default_kb cfg in
    let g = geometry ring_kb cfg in
    if not (format_ok cfg)
    then none
    else if not (ring_kb_ok ring_kb)
    then none
    else if not (pins_ok gpio_num_max cfg)
    then none
    else if leb g.ring_size g.prefill_bytes
    then none
    else some g

-- The ring that `michi_audio_output_init` sets up over its allocation.
unfoldable pub fresh : List ℕ → ℕ → Ring
fresh buf ring_size = record { buf = buf; size = ring_size; head = 0; tail = 0; used = 0 }
