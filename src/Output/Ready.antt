-- ===== src/Output/Ready.antt =====
-- What an accepted configuration of `michi_audio_output_init` is good for: a valid empty ring, frames
-- that fill a chunk, and a prefill that fits.
use native.Mathlib.Nat.{mod-eq_of_lt}
use michi_music_stream.Prelude.{
  subst, ℕ, zero, suc, ◌*◌, ◌%◌, ◌^◌, ◌≤◌, ◌<◌, ◌≡◌, refl, sym, ap, ◌∙◌, Bool, true, not, ◌&&◌,
  ◌||◌, some, List, ◌==◌, ==_iff, arith, length, inl, inr, Bool-cases, ◌⊎◌,
}
use michi_music_stream.Output.Ring.{chunk_bytes}
use michi_music_stream.Output.Ring.Valid.{IsValid}
use michi_music_stream.Output.Config.{
  Config, Geometry, ring_kb_of, ring_kb_ok, format_ok, geometry, configure, fresh,
}

-- The exponents tried from `n` down.
power_from : ℕ → ℕ → Bool
power_from zero x = x == 1
power_from (suc n) x = x == 2 ^ suc n || power_from n x

power_from-log : (n x : ℕ) → power_from n x ≡ true → (k : ℕ) × (x ≡ 2 ^ k)
unfolding power_from
power_from-log zero x h = (0, (==_iff x 1).0 h)
power_from-log (suc n) x h = elim (Bool-cases (x == 2 ^ suc n)) [
  | inl e ↦ (suc n, (==_iff x (2 ^ suc n)).0 e)
  | inr e ↦ power_from-log n x (rw e at h)
]

all_below : ℕ → (ℕ → Bool) → Bool
all_below zero p = true
all_below (suc n) p = p n && all_below n p

all_below-holds : (n : ℕ) (p : ℕ → Bool) (x : ℕ) → x < n → all_below n p ≡ true → p x ≡ true
unfolding all_below
all_below-holds zero p x h e = absurd (omega arith)
all_below-holds (suc n) p x h e = ground (arith, all_below-holds n p x)

-- Every accepted size in KiB is a power of two.
size_table : all_below 16385 (λ kb. not (ring_kb_ok kb) || power_from 24 (kb * 1024)) ≡ true
unfolding all_below ring_kb_ok power_from
size_table = refl

power_of_ring_kb : (kb : ℕ) → kb < 16385 → ring_kb_ok kb ≡ true → (k : ℕ) × (kb * 1024 ≡ 2 ^ k)
power_of_ring_kb kb h e = power_from-log 24 (kb * 1024) (
    rw e at
      (all_below-holds 16385 (λ x. not (ring_kb_ok x) || power_from 24 (x * 1024)) kb h size_table))

ring_kb_range : (kb : ℕ) → ring_kb_ok kb ≡ true → (16 ≤ kb) × (kb ≤ 16384)
unfolding ring_kb_ok
ring_kb_range kb e = ground arith

-- Which checks an accepted configuration passed.
module _ (gpio_num_max default_kb : ℕ) (cfg : Config) (g : Geometry) where
  accepted-checks :
      configure gpio_num_max default_kb cfg ≡ some g
      → (format_ok cfg ≡ true)
        × (ring_kb_ok (ring_kb_of default_kb cfg) ≡ true)
        × (g ≡ geometry (ring_kb_of default_kb cfg) cfg)
        × (g.prefill_bytes < g.ring_size)
  unfolding configure
  accepted-checks h = (ground arith, ground arith, ground arith, ground arith)

format_ok-cases :
    (cfg : Config)
    → format_ok cfg ≡ true
    → (cfg.sample_rate ≤ 96000)
      × ((cfg.bit_depth ≡ 16) ⊎ (cfg.bit_depth ≡ 24))
      × ((cfg.channels ≡ 1) ⊎ (cfg.channels ≡ 2))
unfolding format_ok
format_ok-cases cfg h = ground arith

frame_bytes-divides :
    (kb : ℕ) (cfg : Config)
    → ((cfg.bit_depth ≡ 16) ⊎ (cfg.bit_depth ≡ 24))
    → ((cfg.channels ≡ 1) ⊎ (cfg.channels ≡ 2))
    → (0 < (geometry kb cfg).frame_bytes) × (chunk_bytes % (geometry kb cfg).frame_bytes ≡ 0)
unfolding geometry
frame_bytes-divides kb cfg (inl b) (inl c) = rw (b, c) (omega arith, refl)
frame_bytes-divides kb cfg (inl b) (inr c) = rw (b, c) (omega arith, refl)
frame_bytes-divides kb cfg (inr b) (inl c) = rw (b, c) (omega arith, refl)
frame_bytes-divides kb cfg (inr b) (inr c) = rw (b, c) (omega arith, refl)

ring_size_exact : (kb : ℕ) (cfg : Config) → kb ≤ 16384 → (geometry kb cfg).ring_size ≡ kb * 1024
unfolding geometry
ring_size_exact kb cfg h = omega arith

-- A configuration that init takes gives a ring that is valid and empty, a prefill that fits in it,
-- and a frame that fills the worker's chunk a whole number of times, whatever the allocation holds.
pub configure-IsReady :
    (gpio_num_max default_kb : ℕ) (cfg : Config) (g : Geometry) (buf : List ℕ)
    → configure gpio_num_max default_kb cfg ≡ some g
    → length buf ≡ g.ring_size
    → IsValid (fresh buf g.ring_size)
      × (g.prefill_bytes < g.ring_size)
      × (0 < g.frame_bytes)
      × (chunk_bytes % g.frame_bytes ≡ 0)
unfolding fresh
configure-IsReady gpio_num_max default_kb cfg g buf h l =
    let (f, k, e, fits) = accepted-checks gpio_num_max default_kb cfg g h in
    let kb = ring_kb_of default_kb cfg in
    let (rate, depth, channels) = format_ok-cases cfg f in
    let (low, high) = ring_kb_range kb k in
    let (exponent, power) = power_of_ring_kb kb (omega arith) k in
    let size : g.ring_size ≡ kb * 1024 =
      ap (λ (x : Geometry). x.ring_size) e ∙ ring_size_exact kb cfg high in
    (
      record {
        exponent = exponent;
        power = size ∙ power;
        positive = omega arith;
        small = omega arith;
        storage = l;
        tail_in = omega arith;
        head_at = sym (mod-eq_of_lt {n = 0} {m = g.ring_size} (omega arith));
        used_in = omega arith;
      },
      fits,
      subst (λ (x : Geometry). (0 < x.frame_bytes)) (sym e)
          (frame_bytes-divides kb cfg depth channels).0,
      subst (λ (x : Geometry). (chunk_bytes % x.frame_bytes ≡ 0)) (sym e)
          (frame_bytes-divides kb cfg depth channels).1,
    )
