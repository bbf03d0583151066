-- ===== src/Home/Segments.antt =====
-- Texts put one after the other, and how the colons of a payload part them again.
use michi_music_stream.Prelude.{
  ℕ, zero, suc, ◌+◌, ◌-◌, ◌*◌, ◌/◌, ◌%◌, ◌^◌, ◌≤◌, ◌<◌, ◌≡◌, refl, ap, ap₂, none, some, List, [],
  ◌∷◌, ◌++◌, ltb, if◌then◌else◌, length, length-append, arith, All, if-both, if-split,
}
use michi_music_stream.Home.Payload.{
  append_all, sort_roles, insert_role, strcmp_le, with_colon, print_nat,
}

unfoldable pub concat : List (List ℕ) → List ℕ
concat [] = []
concat (p ∷ ps) = p ++ concat ps

pub append_assoc : (xs ys zs : List ℕ) → (xs ++ ys) ++ zs ≡ xs ++ (ys ++ zs)
append_assoc [] ys zs = refl
append_assoc (x ∷ xs) ys zs = ap (λ (t : List ℕ). x ∷ t) (append_assoc xs ys zs)

pub append_nil : (xs : List ℕ) → xs ++ [] ≡ xs
append_nil [] = refl
append_nil (x ∷ xs) = ap (λ (t : List ℕ). x ∷ t) (append_nil xs)

-- The payload is its parts one after the other, where they fit.
pub append_all-concat :
    (n : ℕ) (out : List ℕ) (ps : List (List ℕ))
    → length out ≤ n
    → append_all n out ps
      ≡ (if ltb n (length out + length (concat ps)) then none else some (out ++ concat ps))
unfolding append_all concat
append_all-concat n out [] h = ground (arith, append_nil out)
append_all-concat n out (p ∷ ps) h = ground (
  arith,
  append_all-concat n (out ++ p) ps,
  length-append {0} out p,
  length-append {0} p (concat ps),
  append_assoc out p (concat ps),
)

-- Two texts of one length in front can be taken off.
pub prefix_cancel :
    (xs xs' ys ys' : List ℕ)
    → length xs ≡ length xs'
    → xs ++ ys ≡ xs' ++ ys'
    → (xs ≡ xs') × (ys ≡ ys')
prefix_cancel [] [] ys ys' l h = (refl, h)
prefix_cancel [] (x' ∷ xs') ys ys' l h = absurd (omega arith)
prefix_cancel (x ∷ xs) [] ys ys' l h = absurd (omega arith)
prefix_cancel (x ∷ xs) (x' ∷ xs') ys ys' l h =
    let (front, rest) = prefix_cancel xs xs' ys ys' (omega arith) (ground arith) in
    (ground arith, rest)

-- Texts without a colon, each after a colon.
abbrev pub NoColon : List ℕ → Type 0
NoColon = All (λ c. c ≡ b':' → ⊥)

unfoldable pub joined : List (List ℕ) → List ℕ
joined [] = []
joined (x ∷ xs) = b':' ∷ x ++ joined xs

pub split_at_colon :
    (x x' : List ℕ) (xs ys : List (List ℕ))
    → NoColon x
    → NoColon x'
    → x ++ joined xs ≡ x' ++ joined ys
    → (x ≡ x') × (joined xs ≡ joined ys)
unfolding joined
split_at_colon [] [] xs ys n n' h = (refl, h)
split_at_colon [] (c ∷ x') [] ys n n' h = absurd (ground arith)
split_at_colon [] (c ∷ x') (y ∷ xs) ys n n' h = absurd (n'.0 (ground arith))
split_at_colon (c ∷ x) [] xs [] n n' h = absurd (ground arith)
split_at_colon (c ∷ x) [] xs (y ∷ ys) n n' h = absurd (n.0 (ground arith))
split_at_colon (c ∷ x) (c' ∷ x') xs ys n n' h =
    let (front, rest) = split_at_colon x x' xs ys n.1 n'.1 (ground arith) in (ground arith, rest)

pub joined_cancel :
    (xs ys : List (List ℕ)) → All NoColon xs → All NoColon ys → joined xs ≡ joined ys → xs ≡ ys
unfolding joined
joined_cancel [] [] n n' h = refl
joined_cancel [] (y ∷ ys) n n' h = absurd (ground arith)
joined_cancel (x ∷ xs) [] n n' h = absurd (ground arith)
joined_cancel (x ∷ xs) (y ∷ ys) n n' h =
    let (front, rest) = split_at_colon x y xs ys n.0 n'.0 (ground arith) in
    ap₂ (λ (a : List ℕ) (as' : List (List ℕ)). a ∷ as') front (joined_cancel xs ys n.1 n'.1 rest)

pub last_four :
    (xs ys : List (List ℕ)) (a b c d a' b' c' d' : List ℕ)
    → xs ++ a ∷ b ∷ c ∷ d ∷ [] ≡ ys ++ a' ∷ b' ∷ c' ∷ d' ∷ []
    → (xs ≡ ys) × ((a ≡ a') × (b ≡ b') × (c ≡ c') × (d ≡ d'))
last_four [] [] a b c d a' b' c' d' h = (refl, ground arith)
last_four [] (y ∷ ys) a b c d a' b' c' d' h =
    absurd (omega (arith, ap length h, length-append {0} ys (a' ∷ b' ∷ c' ∷ d' ∷ [])))
last_four (x ∷ xs) [] a b c d a' b' c' d' h =
    absurd (omega (arith, ap length h, length-append {0} xs (a ∷ b ∷ c ∷ d ∷ [])))
last_four (x ∷ xs) (y ∷ ys) a b c d a' b' c' d' h =
    let (front, rest) = last_four xs ys a b c d a' b' c' d' (ground arith) in (ground arith, rest)

-- The number that decimal digits stand for.
unfoldable pub read_nat : ℕ → List ℕ → ℕ
read_nat n [] = n
read_nat n (c ∷ cs) = read_nat (n * 10 + (c - b'0')) cs

pub read_nat-append : (n : ℕ) (xs ys : List ℕ) → read_nat n (xs ++ ys) ≡ read_nat (read_nat n xs) ys
unfolding read_nat
read_nat-append n [] ys = refl
read_nat-append n (x ∷ xs) ys = read_nat-append (n * 10 + (x - b'0')) xs ys

pub read_nat-print_nat : (digits n : ℕ) → n < 10 ^ digits → read_nat 0 (print_nat digits n) ≡ n
unfolding read_nat print_nat
read_nat-print_nat zero n h = omega arith
read_nat-print_nat (suc digits) n h = ground (
  arith,
  read_nat-print_nat digits (n / 10),
  read_nat-append 0 (print_nat digits (n / 10)) ((b'0' + n % 10) ∷ []),
)

pub All-append {ℓ} :
    {A : Type ℓ} (P : A → Type 0) (xs ys : List A) → All P xs → All P ys → All P (xs ++ ys)
All-append P [] ys h k = k
All-append P (x ∷ xs) ys h k = (h.0, All-append P xs ys h.1 k)

pub print_nat-NoColon : (digits n : ℕ) → NoColon (print_nat digits n)
unfolding print_nat
print_nat-NoColon zero n = tt
print_nat-NoColon (suc digits) n =
    if-split NoColon (ltb n 10) (λ small. ((λ e. ground arith), tt))
      (λ _.
        All-append (λ c. c ≡ b':' → ⊥) (print_nat digits (n / 10)) ((b'0' + n % 10) ∷ [])
          (print_nat-NoColon digits (n / 10)) ((λ e. omega arith), tt))

abbrev pub timestamp : List ℕ → List ℕ → List ℕ → List ℕ
timestamp a b c = a ++ (b':' ∷ (b ++ (b':' ∷ c)))

-- A time as it is issued, `…:…:…`.
abbrev pub IsTimestamp : List ℕ → Type 0
IsTimestamp t =
    (a : List ℕ) × (b : List ℕ) × (c : List ℕ) × NoColon a
    × NoColon b
    × NoColon c
    × (t ≡ timestamp a b c)

joined_tail :
    (a b c d : List ℕ)
    → concat ((b':' ∷ []) ∷ timestamp a b c ∷ (b':' ∷ []) ∷ d ∷ []) ≡ joined (a ∷ b ∷ c ∷ d ∷ [])
unfolding concat joined
joined_tail a b c d = simp (append_assoc, append_nil)

pub concat-with_colon :
    (rs : List (List ℕ)) (a b c d : List ℕ)
    → concat (with_colon rs ++ (b':' ∷ []) ∷ timestamp a b c ∷ (b':' ∷ []) ∷ d ∷ [])
      ≡ joined (rs ++ a ∷ b ∷ c ∷ d ∷ [])
unfolding concat with_colon joined
concat-with_colon [] a b c d = unfold joined in joined_tail a b c d
concat-with_colon (r ∷ rs) a b c d =
    ap (λ (t : List ℕ). b':' ∷ r ++ t) (concat-with_colon rs a b c d)

-- The sorting keeps what holds of every role.
insert_role-All :
    (P : List ℕ → Type 0) (r : List ℕ) (xs : List (List ℕ))
    → P r
    → All P xs
    → All P (insert_role r xs)
unfolding insert_role
insert_role-All P r [] h k = (h, tt)
insert_role-All P r (x ∷ xs) h k =
    if-both (All P) (strcmp_le r x) (h, k) (k.0, insert_role-All P r xs h k.1)

pub sort_roles-All : (P : List ℕ → Type 0) (xs : List (List ℕ)) → All P xs → All P (sort_roles xs)
unfolding sort_roles
sort_roles-All P [] h = tt
sort_roles-All P (x ∷ xs) h = insert_role-All P x (sort_roles xs) h.0 (sort_roles-All P xs h.1)
