-- ===== src/Auth/Slots.antt =====
-- The fixed tables of michi_auth.c: the loops that look for a slot, and how many slots pass a test.
use michi_music_stream.Prelude.{
  ℕ, zero, suc, ◌+◌, ◌≤◌, ◌≡◌, refl, Bool, true, Option, none, some, List, [], ◌∷◌, map,
  if◌then◌else◌, get_elem?, get_or, set, All, arith, replicate, Bool-cases, inl, inr, ◌==◌, subst,
}

abbrev later : Option ℕ → Option ℕ
later none = none
later (some i) = some (suc i)

module _ {ℓ} {A : Type ℓ} where
  -- `for (i = 0; i < MAX; i++) if (test) { slot = i; break; }`; `none` is a slot of -1.
  unfoldable pub find_index : (A → Bool) → List A → Option ℕ
  find_index p [] = none
  find_index p (x ∷ xs) = if p x then some 0 else later (find_index p xs)

  unfoldable pub count_if : (A → Bool) → List A → ℕ
  count_if p [] = 0
  count_if p (x ∷ xs) = (if p x then 1 else 0) + count_if p xs

  -- The slot that is found passes the test.
  pub find_index_sound :
      (p : A → Bool) (xs : List A) (i : ℕ)
      → find_index p xs ≡ some i
      → (x : A) × (get_elem? xs i ≡ some x) × (p x ≡ true)
  unfolding find_index
  find_index_sound p [] i h = absurd (ground arith)
  find_index_sound p (x ∷ xs) zero h = elim (Bool-cases (p x)) [
    | inl t ↦ (x, refl, t)
    | inr f ↦ absurd (ground arith)
  ]
  find_index_sound p (x ∷ xs) (suc i) h = elim (Bool-cases (p x)) [
    | inl t ↦ absurd (ground arith)
    | inr f ↦ find_index_sound p xs i (ground arith)
  ]

  -- Where no slot is found, none passes the test.
  pub find_index-none : (p : A → Bool) (xs : List A) → find_index p xs ≡ none → count_if p xs ≡ 0
  unfolding find_index count_if
  find_index-none p [] h = refl
  find_index-none p (x ∷ xs) h = ground (arith, find_index-none p xs)

  -- Writing a slot moves its count from the old entry to the new.
  pub count_if-set :
      (p : A → Bool) (xs : List A) (i : ℕ) (x v : A)
      → get_elem? xs i ≡ some x
      → count_if p (set xs i v) + (if p x then 1 else 0) ≡ count_if p xs + (if p v then 1 else 0)
  unfolding count_if
  count_if-set p [] i x v h = absurd (ground arith)
  count_if-set p (y ∷ xs) zero x v h = ground arith
  count_if-set p (y ∷ xs) (suc i) x v h = ground (arith, count_if-set p xs i x v)

  -- A change of entries that makes no further one pass the test.
  pub count_if-map :
      (p : A → Bool) (f : A → A) (xs : List A)
      → ((x : A) → p (f x) ≡ true → p x ≡ true)
      → count_if p (map f xs) ≤ count_if p xs
  unfolding count_if
  count_if-map p f [] h = omega arith
  count_if-map p f (x ∷ xs) h = ground (arith, count_if-map p f xs h, h x)

  pub All-set {κ} :
      (P : A → Type κ) (xs : List A) (i : ℕ) (v : A) → All P xs → P v → All P (set xs i v)
  All-set P [] i v h k = h
  All-set P (x ∷ xs) zero v h k = (k, h.1)
  All-set P (x ∷ xs) (suc i) v h k = (h.0, All-set P xs i v h.1 k)

  pub All-map {κ} :
      (P : A → Type κ) (f : A → A) (xs : List A)
      → All P xs
      → ((x : A) → P x → P (f x))
      → All P (map f xs)
  All-map P f [] h k = h
  All-map P f (x ∷ xs) h k = (k x h.0, All-map P f xs h.1 k)

  pub All-get {κ} :
      (P : A → Type κ) (xs : List A) (i : ℕ) (x : A) → All P xs → get_elem? xs i ≡ some x → P x
  All-get P [] i x h e = absurd (ground arith)
  All-get P (y ∷ xs) zero x h e = subst P (ground arith) h.0
  All-get P (y ∷ xs) (suc i) x h e = All-get P xs i x h.1 e

  pub get_elem?-set :
      (xs : List A) (i j : ℕ) (v x : A)
      → get_elem? xs i ≡ some x
      → get_elem? (set xs j v) i ≡ (if i == j then some v else some x)
  get_elem?-set [] i j v x h = absurd (ground arith)
  get_elem?-set (y ∷ xs) zero zero v x h = ground arith
  get_elem?-set (y ∷ xs) zero (suc j) v x h = ground arith
  get_elem?-set (y ∷ xs) (suc i) zero v x h = ground arith
  get_elem?-set (y ∷ xs) (suc i) (suc j) v x h = ground (arith, get_elem?-set xs i j v x)

  pub get_elem?-map :
      (f : A → A) (xs : List A) (i : ℕ) (x : A)
      → get_elem? xs i ≡ some x
      → get_elem? (map f xs) i ≡ some (f x)
  get_elem?-map f [] i x h = absurd (ground arith)
  get_elem?-map f (y ∷ xs) zero x h = ground arith
  get_elem?-map f (y ∷ xs) (suc i) x h = get_elem?-map f xs i x h

  pub get_elem?_of_map :
      (f : A → A) (xs : List A) (i : ℕ) (y : A)
      → get_elem? (map f xs) i ≡ some y
      → (x : A) × (get_elem? xs i ≡ some x) × (f x ≡ y)
  get_elem?_of_map f [] i y h = absurd (ground arith)
  get_elem?_of_map f (x ∷ xs) zero y h = (x, refl, ground arith)
  get_elem?_of_map f (x ∷ xs) (suc i) y h = get_elem?_of_map f xs i y h

  pub get_or_of_get_elem? :
      (xs : List A) (i : ℕ) (d x : A) → get_elem? xs i ≡ some x → get_or xs i d ≡ x
  get_or_of_get_elem? [] i d x h = absurd (ground arith)
  get_or_of_get_elem? (y ∷ xs) zero d x h = ground arith
  get_or_of_get_elem? (y ∷ xs) (suc i) d x h = get_or_of_get_elem? xs i d x h

pub All-mono {ℓ κ} :
    {A : Type ℓ} (P Q : A → Type κ) (xs : List A) → ((x : A) → P x → Q x) → All P xs → All Q xs
All-mono P Q [] f h = h
All-mono P Q (x ∷ xs) f h = (f x h.0, All-mono P Q xs f h.1)

pub All-replicate {ℓ κ} :
    {A : Type ℓ} (P : A → Type κ) (n : ℕ) (a : A) → P a → All P (replicate n a)
All-replicate P zero a h = tt
All-replicate P (suc n) a h = (h, All-replicate P n a h)
