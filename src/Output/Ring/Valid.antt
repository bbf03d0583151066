-- ===== src/Output/Ring/Valid.antt =====
-- The representation invariant of `ring_t`: indices in range, and no `size_t` operation wraps.
use native.Mathlib.Nat.{mod-lt}
use michi_music_stream.Prelude.{
  ℕ, ◌+◌, ◌-◌, ◌%◌, ◌^◌, min, ◌≤◌, ◌<◌, ◌≡◌, sym, ap, ap₂, ◌∙◌, false, List, ◌++◌, arith, length,
  length-take, take, drop, ltb-cases, ltb, inl, inr, if◌then◌else◌,
}
use michi_music_stream.Prelude.Mask.{bit_and_mask}
use michi_music_stream.JitterBuffer.Insert.{blit}
use michi_music_stream.Output.Ring.{Ring, add_size, sub_size, advance_index, copy_in, copy_out}
use michi_music_stream.Output.Ring.Bytes.{blit-nil, take_all, drop_all, take-take, drop-take}
use michi_music_stream.Output.Ring.Window.{
  window, window-add, window_straight, wrap-cases, put_all, put_all-two_copies,
}

-- The size is a power of two, 16 MiB at most, as `michi_audio_output_init` demands.
pub record IsValid (r : Ring) : Type 0 where
  pub exponent : ℕ
  pub power : r.size ≡ 2 ^ exponent
  pub positive : 0 < r.size
  pub small : r.size ≤ 16777216
  pub storage : length r.buf ≡ r.size
  pub tail_in : r.tail < r.size
  pub head_at : r.head ≡ (r.tail + r.used) % r.size
  pub used_in : r.used ≤ r.size

-- The bytes that the ring holds, oldest first.
abbrev pub contents : Ring → List ℕ
contents r = window r.buf r.size r.tail r.used

pub sub_size_exact : (a b : ℕ) → b ≤ a → a ≤ 16777216 → sub_size a b ≡ a - b
sub_size_exact a b h k = omega arith

pub add_size_exact : (a b : ℕ) → a ≤ 16777216 → b ≤ 16777216 → add_size a b ≡ a + b
add_size_exact a b h k = omega arith

-- Masking an index is going round the buffer.
pub advance_index_lem :
    {r : Ring} (i n : ℕ)
    → IsValid r
    → i < r.size
    → n ≤ r.size
    → advance_index r i n ≡ (i + n) % r.size
unfolding advance_index
advance_index_lem {r} i n v hi hn =
    rw
      (
        add_size_exact i n (omega arith) (omega arith),
        sub_size_exact r.size 1 v.positive v.small,
        v.power,
      )
      (bit_and_mask v.exponent (i + n))

pub head_in : {r : Ring} → IsValid r → r.head < r.size
head_in {r} v = rw v.head_at (mod-lt (r.tail + r.used) v.positive)

-- A copy up to the end and one from the start, as the code cuts them and cut at `m`.
split_copy :
    (b bytes : List ℕ) (h m free : ℕ)
    → free ≤ length bytes
    → (if ltb (min free m) free
        then blit
            (blit b h (take (min free m) bytes))
            0
            (take (free - min free m) (drop (min free m) bytes))
        else blit b h (take (min free m) bytes))
      ≡ blit (blit b h (take m (take free bytes))) 0 (drop m (take free bytes))
split_copy b bytes h m free hb = elim (ltb-cases m free) [
  | inl (t, p) ↦
      let e : min free m ≡ m = omega arith in
      rw (
        e,
        t,
        take-take m free bytes (omega arith),
        drop-take m free (free - m) bytes (omega arith),
      )
  | inr (t, p) ↦
      let e : min free m ≡ free = omega arith in
      let same : ltb free free ≡ false = ground arith in
      rw (
        e,
        same,
        take_all m (take free bytes) (omega (arith, length-take {0} free bytes)),
        drop_all m (take free bytes) (omega (arith, length-take {0} free bytes)),
        blit-nil,
      )
]

-- The two copies of `ring_write` write its bytes one after the other, going round.
pub copy_in_lem :
    {r : Ring} (bytes : List ℕ) (free : ℕ)
    → IsValid r
    → free ≤ length bytes
    → free ≤ r.size
    → copy_in r bytes free ≡ put_all r.buf r.size r.head (take free bytes)
unfolding copy_in
copy_in_lem {r} bytes free v hb hf =
    rw (sub_size_exact r.size r.head (omega (arith, head_in v)) v.small) (
      split_copy r.buf bytes r.head (r.size - r.head) free hb
      ∙ sym (
          put_all-two_copies r.buf r.size r.head (r.size - r.head) (take free bytes) v.storage
            (omega (arith, head_in v)) (omega (arith, head_in v))
            (omega (arith, length-take {0} free bytes))))

-- The two copies of `ring_read` read bytes one after the other, going round.
pub copy_out_lem :
    {r : Ring} (n : ℕ) → IsValid r → n ≤ r.size → copy_out r n ≡ window r.buf r.size r.tail n
unfolding copy_out
copy_out_lem {r} n v hn =
    rw (sub_size_exact r.size r.tail (omega (arith, v.tail_in)) v.small)
      elim (ltb-cases (r.size - r.tail) n) [
        | inl (t, p) ↦
            let e : min n (r.size - r.tail) ≡ r.size - r.tail = omega arith in
            rw (e, t)
              (sym (
                window-add r.buf r.size r.tail (r.size - r.tail) (n - (r.size - r.tail)) n
                  (omega (arith, v.tail_in))
                ∙ ap₂ ◌++◌
                    (window_straight r.buf r.size r.tail (r.size - r.tail) v.storage
                      (omega (arith, v.tail_in)))
                    (ap (λ (i : ℕ). window r.buf r.size i (n - (r.size - r.tail)))
                        (ground (arith, wrap-cases (r.tail + (r.size - r.tail)) r.size))
                      ∙ window_straight r.buf r.size 0 (n - (r.size - r.tail)) v.storage
                          (omega (arith, v.tail_in)))))
        | inr (t, p) ↦
            let e : min n (r.size - r.tail) ≡ n = omega arith in
            let same : ltb n n ≡ false = ground arith in
            rw (e, same)
              (sym (window_straight r.buf r.size r.tail n v.storage (omega (arith, v.tail_in))))
      ]
