-- ===== src/JitterBuffer/Payload.antt =====
-- The payload pool of michi_jb.c: where a packet's bytes are copied, and that they can be read back.
use michi_music_stream.Prelude.{
  ℕ, zero, suc, ◌+◌, ◌≤◌, ◌<◌, ◌≡◌, refl, ap, List, [], ◌∷◌, arith, length, take, drop, get_elem?,
}
use michi_music_stream.JitterBuffer.Insert.{blit}

-- `pool[off..off+n)`.
abbrev pub region : List ℕ → ℕ → ℕ → List ℕ
region pool off n = take n (drop off pool)

-- The bytes copied to an offset are read back from it.
pub region-blit :
    (pool : List ℕ) (off : ℕ) (src : List ℕ)
    → off + length src ≤ length pool
    → region (blit pool off src) off (length src) ≡ src
unfolding blit
region-blit [] zero [] h = refl
region-blit [] zero (s ∷ src) h = absurd (omega arith)
region-blit [] (suc off) src h = absurd (omega arith)
region-blit (d ∷ ds) zero [] h = refl
region-blit (d ∷ ds) zero (s ∷ src) h = ap (◌∷◌ s) (region-blit ds zero src (omega arith))
region-blit (d ∷ ds) (suc off) src h = region-blit ds off src (omega arith)

-- Bytes outside the region written keep their values.
pub get_elem?-blit_before :
    (pool : List ℕ) (off : ℕ) (src : List ℕ) (i : ℕ)
    → i < off
    → get_elem? (blit pool off src) i ≡ get_elem? pool i
unfolding blit
get_elem?-blit_before [] off src i h = refl
get_elem?-blit_before (d ∷ ds) zero src i h = absurd (omega arith)
get_elem?-blit_before (d ∷ ds) (suc off) src zero h = refl
get_elem?-blit_before (d ∷ ds) (suc off) src (suc i) h =
    get_elem?-blit_before ds off src i (omega arith)

pub get_elem?-blit_after :
    (pool : List ℕ) (off : ℕ) (src : List ℕ) (i : ℕ)
    → off + length src ≤ i
    → get_elem? (blit pool off src) i ≡ get_elem? pool i
unfolding blit
get_elem?-blit_after [] off src i h = refl
get_elem?-blit_after (d ∷ ds) zero [] i h = refl
get_elem?-blit_after (d ∷ ds) zero (s ∷ src) zero h = absurd (omega arith)
get_elem?-blit_after (d ∷ ds) zero (s ∷ src) (suc i) h =
    get_elem?-blit_after ds zero src i (omega arith)
get_elem?-blit_after (d ∷ ds) (suc off) src zero h = absurd (omega arith)
get_elem?-blit_after (d ∷ ds) (suc off) src (suc i) h =
    get_elem?-blit_after ds off src i (omega arith)
