-- ===== src/Output/Ring/Window.antt =====
-- The bytes that a ring holds, read round its buffer, and what the copies of `ring_write` and
-- `ring_read` do to them.
use native.Mathlib.Nat.{mod-add-mod, mod-eq_of_lt, mod-eq-sub-mod}
use mathlib.Core.List.{append-nil, append_assoc}
use michi_music_stream.Prelude.{
  length-append, ℕ, zero, suc, ◌+◌, ◌-◌, ◌%◌, ◌≤◌, ◌<◌, ◌≡◌, refl, sym, ap, ap₂, ◌∙◌, List, [], ◌∷◌,
  ◌++◌, arith, length, length-set, take, drop, get_or, set, ltb-cases, inl, inr, ◌⊎◌,
}
use michi_music_stream.JitterBuffer.Insert.{blit}
use michi_music_stream.Output.Ring.Bytes.{
  get_or-set_at, get_or-set_off, blit-nil, blit-cons, take_all, drop_all, slice_snoc,
}

-- The `n` bytes from index `i` on, going round at `size`.
abbrev pub window : List ℕ → ℕ → ℕ → ℕ → List ℕ
window b size i zero = []
window b size i (suc n) = window b size i n ++ (get_or b ((i + n) % size) 0 ∷ [])

pub length-window : (b : List ℕ) (size i n : ℕ) → length (window b size i n) ≡ n
length-window b size i zero = refl
length-window b size i (suc n) = omega (
  arith,
  length-append {0} (window b size i n) (get_or b ((i + n) % size) 0 ∷ []),
  length-window b size i n,
)

-- An index that has gone round at most once.
pub wrap-cases :
    (x size : ℕ)
    → x < size + size
    → ((x < size) × (x % size ≡ x)) ⊎ ((size ≤ x) × (x % size ≡ x - size))
wrap-cases x size h = elim (ltb-cases x size) [
  | inl (t, p) ↦ inl (p, mod-eq_of_lt p)
  | inr (t, p) ↦ inr (p, mod-eq-sub-mod {n = x} {m = size} p ∙ mod-eq_of_lt (omega arith))
]

-- Fewer than `size` steps do not come back to the same place.
round-ne : (size i j n : ℕ) → i < size → j < n → n < size → (i + n) % size ≡ (i + j) % size → ⊥
round-ne size i j n hi hj hn e = ground (arith, wrap-cases (i + n) size, wrap-cases (i + j) size)

window-set_off :
    (b : List ℕ) (size i n k x : ℕ)
    → i < size
    → k ≤ n
    → n < size
    → window (set b ((i + n) % size) x) size i k ≡ window b size i k
window-set_off b size i n zero x hi hk hn = refl
window-set_off b size i n (suc k) x hi hk hn =
    ap₂ (λ u (v : ℕ). u ++ (v ∷ [])) (window-set_off b size i n k x hi (omega arith) hn)
      (get_or-set_off b ((i + n) % size) ((i + k) % size) x (round-ne size i k n hi hk hn))

-- Writing the byte just past a window extends it.
pub window-set :
    (b : List ℕ) (size i n x : ℕ)
    → length b ≡ size
    → i < size
    → n < size
    → window (set b ((i + n) % size) x) size i (suc n) ≡ window b size i n ++ (x ∷ [])
window-set b size i n x e hi hn =
    ap₂ (λ u (v : ℕ). u ++ (v ∷ [])) (window-set_off b size i n n x hi (omega arith) hn)
      (get_or-set_at b ((i + n) % size) x (ground (arith, wrap-cases (i + n) size)))

-- A window in two parts.
pub window-add :
    (b : List ℕ) (size i m n k : ℕ)
    → k ≡ m + n
    → window b size i k ≡ window b size i m ++ window b size ((i + m) % size) n
window-add b size i m zero k e = rw append-nil (ap (window b size i) {x = k} {y = m} (omega arith))
window-add b size i m (suc n) zero e = absurd (omega arith)
window-add b size i m (suc n) (suc k) e =
    ap₂ (λ u (j : ℕ). u ++ (get_or b j 0 ∷ [])) (window-add b size i m n k (omega arith)) place
    ∙ append_assoc (window b size i m) (window b size ((i + m) % size) n)
        (get_or b (((i + m) % size + n) % size) 0 ∷ [])
  where
    place : (i + k) % size ≡ ((i + m) % size + n) % size
    place = rw mod-add-mod (ap (λ (t : ℕ). t % size) (omega arith))

-- A window that does not go round is a slice.
pub window_straight :
    (b : List ℕ) (size i n : ℕ)
    → length b ≡ size
    → i + n ≤ size
    → window b size i n ≡ take n (drop i b)
window_straight b size i zero e h = refl
window_straight b size i (suc n) e h =
    ap₂ (λ u (v : ℕ). u ++ (v ∷ [])) (window_straight b size i n e (omega arith))
      (ap (λ (j : ℕ). get_or b j 0) (mod-eq_of_lt (omega arith)))
    ∙ sym (slice_snoc b i n (i + n) refl (omega arith))

-- The bytes of a list written one after the other, going round at `size`.
abbrev pub put_all : List ℕ → ℕ → ℕ → List ℕ → List ℕ
put_all b size i [] = b
put_all b size i (x ∷ xs) = put_all (set b i x) size ((i + 1) % size) xs

pub length-put_all :
    (b : List ℕ) (size i : ℕ) (xs : List ℕ) → length (put_all b size i xs) ≡ length b
length-put_all b size i [] = refl
length-put_all b size i (x ∷ xs) =
    length-put_all (set b i x) size ((i + 1) % size) xs ∙ length-set b i x

-- Writing on from the end of a window appends to it.
pub window-put_all :
    (b : List ℕ) (size i n j k : ℕ) (xs : List ℕ)
    → length b ≡ size
    → i < size
    → j ≡ (i + n) % size
    → k ≡ n + length xs
    → k ≤ size
    → window (put_all b size j xs) size i k ≡ window b size i n ++ xs
window-put_all b size i n j k [] e hi ej ek hk =
    rw append-nil (ap (window b size i) {x = k} {y = n} (omega arith))
window-put_all b size i n j k (x ∷ xs) e hi ej ek hk =
    window-put_all (set b j x) size i (suc n) ((j + 1) % size) k xs (length-set b j x ∙ e) hi
      (rw (ej, mod-add-mod) (ap (λ (t : ℕ). t % size) (omega arith))) (omega arith) hk
    ∙ (ap (λ u. u ++ xs)
          (ap (λ (t : ℕ). window (set b t x) size i (suc n)) ej
            ∙ window-set b size i n x e hi (omega arith))
        ∙ append_assoc (window b size i n) (x ∷ []) xs)

-- At most one round of writes is two copies: `m` bytes up to the end, and the others from the
-- start.
pub put_all-two_copies :
    (b : List ℕ) (size i m : ℕ) (xs : List ℕ)
    → length b ≡ size
    → m + i ≡ size
    → 0 < m
    → length xs ≤ size
    → put_all b size i xs ≡ blit (blit b i (take m xs)) 0 (drop m xs)
put_all-two_copies b size i zero xs e ei hm h = absurd (omega arith)
put_all-two_copies b size i (suc m) [] e ei hm h = rw (blit-nil, blit-nil)
put_all-two_copies b size i (suc zero) (x ∷ xs) e ei hm h =
    ap (λ (t : ℕ). put_all (set b i x) size t xs) round
    ∙ (put_all-two_copies (set b i x) size 0 size xs (length-set b i x ∙ e) (omega arith)
          (omega arith) (omega arith)
        ∙ rw (
          take_all size xs (omega arith),
          drop_all size xs (omega arith),
          blit-nil,
          blit-cons b i x [] (omega arith),
          blit-nil (set b i x) (suc i),
        ))
  where
    round : (i + 1) % size ≡ 0
    round = ground (arith, wrap-cases (i + 1) size)
put_all-two_copies b size i (suc (suc m)) (x ∷ xs) e ei hm h =
    ap (λ (t : ℕ). put_all (set b i x) size t xs) next
    ∙ (put_all-two_copies (set b i x) size (suc i) (suc m) xs (length-set b i x ∙ e) (omega arith)
          (omega arith) (omega arith)
        ∙ rw (blit-cons b i x (take (suc m) xs) (omega arith)))
  where
    next : (i + 1) % size ≡ suc i
    next = ground (arith, wrap-cases (i + 1) size)
