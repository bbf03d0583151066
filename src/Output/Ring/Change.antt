-- ===== src/Output/Ring/Change.antt =====
-- Adding bytes to a valid ring and removing bytes from it.
use native.Mathlib.Nat.{mod-add-mod, mod-lt, mod-eq_of_lt}
use michi_music_stream.Prelude.{
  ℕ, ◌+◌, ◌-◌, ◌%◌, ◌≤◌, ◌≡◌, refl, sym, ap, ◌∙◌, List, ◌++◌, arith, length, length-take, take,
}
use michi_music_stream.Output.Ring.{Ring, append, remove, copy_out, ring_reset}
use michi_music_stream.Output.Ring.Window.{
  window-add, window-put_all, length-window, length-put_all,
}
use michi_music_stream.Output.Ring.Valid.{
  IsValid, contents, add_size_exact, sub_size_exact, advance_index_lem, head_in, copy_in_lem,
  copy_out_lem,
}

pub length-contents : (r : Ring) → length (contents r) ≡ r.used
length-contents r = length-window r.buf r.size r.tail r.used

module _ {r : Ring} (v : IsValid r) where
  -- Adding bytes that fit keeps a valid ring valid.
  pub append-IsValid :
      (bytes : List ℕ) (free : ℕ)
      → free ≤ length bytes
      → r.used + free ≤ r.size
      → IsValid (append r bytes free)
  unfolding append
  append-IsValid bytes free hb hf = record {
    exponent = v.exponent;
    power = v.power;
    positive = v.positive;
    small = v.small;
    storage =
        rw (copy_in_lem bytes free v hb (omega arith))
          (length-put_all r.buf r.size r.head (take free bytes) ∙ v.storage);
    tail_in = v.tail_in;
    head_at =
        rw
          (
            advance_index_lem r.head free v (head_in v) (omega arith),
            add_size_exact r.used free (omega (arith, v.small)) (omega (arith, v.small)),
          )
          (ap (λ (t : ℕ). (t + free) % r.size) v.head_at
            ∙ rw mod-add-mod (ap (λ (t : ℕ). t % r.size) (omega arith)));
    used_in = omega (arith, add_size_exact r.used free, v.small);
  }

  pub contents-append :
      (bytes : List ℕ) (free : ℕ)
      → free ≤ length bytes
      → r.used + free ≤ r.size
      → contents (append r bytes free) ≡ contents r ++ take free bytes
  unfolding append
  contents-append bytes free hb hf =
      rw
        (
          copy_in_lem bytes free v hb (omega arith),
          add_size_exact r.used free (omega (arith, v.small)) (omega (arith, v.small)),
        )
        (window-put_all r.buf r.size r.tail r.used r.head (r.used + free) (take free bytes)
          v.storage v.tail_in v.head_at (omega (arith, length-take {0} free bytes)) hf)

  -- So does removing bytes that are there.
  pub remove-IsValid : (n : ℕ) → n ≤ r.used → IsValid (remove r n)
  unfolding remove
  remove-IsValid n hn = record {
    exponent = v.exponent;
    power = v.power;
    positive = v.positive;
    small = v.small;
    storage = v.storage;
    tail_in =
        rw (advance_index_lem r.tail n v v.tail_in (omega (arith, v.used_in)))
          (mod-lt (r.tail + n) v.positive);
    head_at =
        rw
          (
            advance_index_lem r.tail n v v.tail_in (omega (arith, v.used_in)),
            sub_size_exact r.used n hn (omega (arith, v.used_in, v.small)),
          )
          (v.head_at ∙ rw mod-add-mod (ap (λ (t : ℕ). t % r.size) (omega arith)));
    used_in = omega (arith, sub_size_exact r.used n, v.used_in, v.small);
  }

  pub contents-remove : (n : ℕ) → n ≤ r.used → contents r ≡ copy_out r n ++ contents (remove r n)
  unfolding remove
  contents-remove n hn =
      rw
        (
          copy_out_lem n v (omega (arith, v.used_in)),
          advance_index_lem r.tail n v v.tail_in (omega (arith, v.used_in)),
          sub_size_exact r.used n hn (omega (arith, v.used_in, v.small)),
        )
        (window-add r.buf r.size r.tail n (r.used - n) r.used (omega arith))

  pub length-copy_out : (n : ℕ) → n ≤ r.used → length (copy_out r n) ≡ n
  length-copy_out n hn =
      rw (copy_out_lem n v (omega (arith, v.used_in))) (length-window r.buf r.size r.tail n)

  pub reset-IsValid : IsValid (ring_reset r)
  unfolding ring_reset
  reset-IsValid = record {
    exponent = v.exponent;
    power = v.power;
    positive = v.positive;
    small = v.small;
    storage = v.storage;
    tail_in = v.positive;
    head_at = sym (mod-eq_of_lt v.positive);
    used_in = omega arith;
  }

  pub used-append :
      (bytes : List ℕ) (n : ℕ) → r.used + n ≤ r.size → (append r bytes n).used ≡ r.used + n
  unfolding append
  used-append bytes n h = add_size_exact r.used n (omega (arith, v.small)) (omega (arith, v.small))

  pub size-append : (bytes : List ℕ) (n : ℕ) → (append r bytes n).size ≡ r.size
  unfolding append
  size-append bytes n = refl
