-- ===== src/Output/Ring/Bytes.antt =====
-- Byte arrays: a copy into one as a sequence of writes, and the pieces of a list.
use michi_music_stream.Prelude.{
  ℕ, zero, suc, ◌+◌, ◌≤◌, ◌<◌, ◌≡◌, refl, ap, List, [], ◌∷◌, ◌++◌, arith, length, take, drop,
  get_or, set,
}
use michi_music_stream.JitterBuffer.Insert.{blit}

pub get_or-set_at : (b : List ℕ) (i x : ℕ) → i < length b → get_or (set b i x) i 0 ≡ x
get_or-set_at [] i x h = absurd (omega arith)
get_or-set_at (y ∷ b) zero x h = refl
get_or-set_at (y ∷ b) (suc i) x h = get_or-set_at b i x (omega arith)

pub get_or-set_off : (b : List ℕ) (i j x : ℕ) → (i ≡ j → ⊥) → get_or (set b i x) j 0 ≡ get_or b j 0
get_or-set_off [] i j x h = refl
get_or-set_off (y ∷ b) zero zero x h = absurd (h refl)
get_or-set_off (y ∷ b) zero (suc j) x h = refl
get_or-set_off (y ∷ b) (suc i) zero x h = refl
get_or-set_off (y ∷ b) (suc i) (suc j) x h = get_or-set_off b i j x (λ e. h (ap suc e))

pub blit-nil : (b : List ℕ) (i : ℕ) → blit b i [] ≡ b
unfolding blit
blit-nil [] i = refl
blit-nil (y ∷ b) zero = refl
blit-nil (y ∷ b) (suc i) = ap (◌∷◌ y) (blit-nil b i)

-- A copy writes its first byte, and then the others one place on.
pub blit-cons :
    (b : List ℕ) (i x : ℕ) (xs : List ℕ)
    → i < length b
    → blit b i (x ∷ xs) ≡ blit (set b i x) (suc i) xs
unfolding blit
blit-cons [] i x xs h = absurd (omega arith)
blit-cons (y ∷ b) zero x xs h = refl
blit-cons (y ∷ b) (suc i) x xs h = ap (◌∷◌ y) (blit-cons b i x xs (omega arith))

pub length-blit : (b : List ℕ) (i : ℕ) (xs : List ℕ) → length (blit b i xs) ≡ length b
unfolding blit
length-blit [] i xs = refl
length-blit (y ∷ b) zero [] = refl
length-blit (y ∷ b) zero (x ∷ xs) = ap suc (length-blit b zero xs)
length-blit (y ∷ b) (suc i) xs = ap suc (length-blit b i xs)

module _ {ℓ} {A : Type ℓ} where
  pub take_all : (n : ℕ) (xs : List A) → length xs ≤ n → take n xs ≡ xs
  take_all zero [] h = refl
  take_all zero (x ∷ xs) h = absurd (omega arith)
  take_all (suc n) [] h = refl
  take_all (suc n) (x ∷ xs) h = ap (◌∷◌ x) (take_all n xs (omega arith))

  pub drop_all : (n : ℕ) (xs : List A) → length xs ≤ n → drop n xs ≡ []
  drop_all zero [] h = refl
  drop_all zero (x ∷ xs) h = absurd (omega arith)
  drop_all (suc n) [] h = refl
  drop_all (suc n) (x ∷ xs) h = drop_all n xs (omega arith)

  pub take-take : (m n : ℕ) (xs : List A) → m ≤ n → take m (take n xs) ≡ take m xs
  take-take zero n xs h = refl
  take-take (suc m) zero xs h = absurd (omega arith)
  take-take (suc m) (suc n) [] h = refl
  take-take (suc m) (suc n) (x ∷ xs) h = ap (◌∷◌ x) (take-take m n xs (omega arith))

  pub drop-take : (m n k : ℕ) (xs : List A) → n ≡ m + k → drop m (take n xs) ≡ take k (drop m xs)
  drop-take zero n k xs h = ap (λ (t : ℕ). take t xs) (omega arith)
  drop-take (suc m) zero k xs h = absurd (omega arith)
  drop-take (suc m) (suc n) zero [] h = refl
  drop-take (suc m) (suc n) (suc k) [] h = refl
  drop-take (suc m) (suc n) k (x ∷ xs) h = drop-take m n k xs (omega arith)

  pub take-append_length : (xs ys : List A) → take (length xs) (xs ++ ys) ≡ xs
  take-append_length [] ys = refl
  take-append_length (x ∷ xs) ys = ap (◌∷◌ x) (take-append_length xs ys)

  pub drop-append_length : (xs ys : List A) → drop (length xs) (xs ++ ys) ≡ ys
  drop-append_length [] ys = refl
  drop-append_length (x ∷ xs) ys = drop-append_length xs ys

-- One more byte of a slice.
pub slice_snoc :
    (b : List ℕ) (i m j : ℕ)
    → j ≡ i + m
    → j < length b
    → take (suc m) (drop i b) ≡ take m (drop i b) ++ (get_or b j 0 ∷ [])
slice_snoc [] i m j e h = absurd (omega arith)
slice_snoc (y ∷ b) zero zero zero e h = refl
slice_snoc (y ∷ b) zero zero (suc j) e h = absurd (omega arith)
slice_snoc (y ∷ b) zero (suc m) zero e h = absurd (omega arith)
slice_snoc (y ∷ b) zero (suc m) (suc j) e h =
    ap (◌∷◌ y) (slice_snoc b zero m j (omega arith) (omega arith))
slice_snoc (y ∷ b) (suc i) m zero e h = absurd (omega arith)
slice_snoc (y ∷ b) (suc i) m (suc j) e h = slice_snoc b i m j (omega arith) (omega arith)
