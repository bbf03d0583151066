-- ===== src/Semver/Order.antt =====
-- The order of versions in semver.c: it is antisymmetric, and not transitive on labels.
use michi_music_stream.Prelude.{
  ℕ, Bool, true, false, ◌&&◌, not, List, [], ◌∷◌, if◌then◌else◌, ◌==◌, ◌≡◌, refl, arith, ap, ap₂,
  ◌∙◌, codes, take, length, sym,
}
use michi_music_stream.Semver.{
  Semver, Sign, less, same, more, sign_of, or_else, strncmp_sign, value_from, is_numeric, alpha_end,
  is_same, same_prefix, cmp_pre_segment, segments, cmp_segments, cmp_pre_labels, semver_cmp, every,
  push,
}

abbrev pub flip : Sign → Sign
flip less = more
flip same = same
flip more = less

flip-sign_of : (a b : ℕ) → flip (sign_of a b) ≡ sign_of b a
unfolding sign_of
flip-sign_of a b = ground arith

flip-or_else : (r n : Sign) → flip (or_else r n) ≡ or_else (flip r) (flip n)
unfolding or_else
flip-or_else less n = refl
flip-or_else same n = refl
flip-or_else more n = refl

flip-strncmp_sign : (a b : List ℕ) → flip (strncmp_sign a b) ≡ strncmp_sign b a
unfolding strncmp_sign
flip-strncmp_sign [] [] = refl
flip-strncmp_sign [] (y ∷ ys) = refl
flip-strncmp_sign (x ∷ xs) [] = refl
flip-strncmp_sign (x ∷ xs) (y ∷ ys) =
    flip-or_else (sign_of x y) (strncmp_sign xs ys)
    ∙ ap₂ or_else (flip-sign_of x y) (flip-strncmp_sign xs ys)

is_same-flip : (r : Sign) → is_same (flip r) ≡ is_same r
unfolding is_same
is_same-flip less = refl
is_same-flip same = refl
is_same-flip more = refl

same_prefix_comm : (a b : List ℕ) → same_prefix a b ≡ same_prefix b a
unfolding same_prefix
same_prefix_comm a b = conj (alpha_end a) (alpha_end b) _ _ (
    sym (is_same-flip (strncmp_sign (take (alpha_end a) a) (take (alpha_end b) b)))
    ∙ ap is_same (flip-strncmp_sign (take (alpha_end a) a) (take (alpha_end b) b)))
  where
    conj :
        (n m : ℕ) (p q : Bool)
        → p ≡ q
        → ((n == m && not (n == 0)) && p) ≡ ((m == n && not (m == 0)) && q)
    conj n m p q h = ground arith

flip-if : (b : Bool) (x y : Sign) → flip (if b then x else y) ≡ (if b then flip x else flip y)
flip-if true x y = refl
flip-if false x y = refl

if_congr :
    {b c : Bool} {x x' y y' : Sign}
    → b ≡ c
    → x ≡ x'
    → y ≡ y'
    → (if b then x else y) ≡ (if c then x' else y')
if_congr h k l = rw (h, k, l) refl

and_comm : (a b : Bool) → (a && b) ≡ (b && a)
and_comm a b = ground arith

flip-cmp_pre_segment : (a b : List ℕ) → flip (cmp_pre_segment a b) ≡ cmp_pre_segment b a
unfolding cmp_pre_segment
flip-cmp_pre_segment a b =
    flip-if (is_numeric a && is_numeric b) _ _
    ∙ if_congr (and_comm (is_numeric a) (is_numeric b)) (flip-sign_of _ _) (
        flip-if (same_prefix a b) _ _
        ∙ if_congr (same_prefix_comm a b) (flip-sign_of _ _) (
            flip-or_else (strncmp_sign a b) _
            ∙ ap₂ or_else (flip-strncmp_sign a b) (flip-sign_of (length a) (length b))))

flip-cmp_segments : (a b : List (List ℕ)) → flip (cmp_segments a b) ≡ cmp_segments b a
unfolding cmp_segments
flip-cmp_segments [] [] = refl
flip-cmp_segments [] (y ∷ ys) = refl
flip-cmp_segments (x ∷ xs) [] = refl
flip-cmp_segments (x ∷ xs) (y ∷ ys) =
    flip-or_else (cmp_pre_segment x y) (cmp_segments xs ys)
    ∙ ap₂ or_else (flip-cmp_pre_segment x y) (flip-cmp_segments xs ys)

flip-cmp_pre_labels :
    (a b : List ℕ) (p q : Bool) → flip (cmp_pre_labels a p b q) ≡ cmp_pre_labels b q a p
unfolding cmp_pre_labels
flip-cmp_pre_labels a b false false = refl
flip-cmp_pre_labels a b false true = refl
flip-cmp_pre_labels a b true false = refl
flip-cmp_pre_labels a b true true = flip-cmp_segments (segments a) (segments b)

-- Comparing two versions the other way round gives the opposite sign, labels included.
pub semver_cmp-flip : (a b : Semver) → flip (semver_cmp a b) ≡ semver_cmp b a
unfolding semver_cmp
semver_cmp-flip a b =
    flip-or_else (sign_of a.major b.major) _
    ∙ ap₂ or_else (flip-sign_of a.major b.major) (
        flip-or_else (sign_of a.minor b.minor) _
        ∙ ap₂ or_else (flip-sign_of a.minor b.minor) (
            flip-or_else (sign_of a.patch b.patch) _
            ∙ ap₂ or_else (flip-sign_of a.patch b.patch)
                (flip-cmp_pre_labels a.pre b.pre a.has_pre b.has_pre)))

-- A version with a label.
abbrev pub labelled : ℕ → ℕ → ℕ → List ℕ → Semver
labelled x y z label = record { major = x; minor = y; patch = z; has_pre = true; pre = label }

sign_of_refl : (n : ℕ) → sign_of n n ≡ same
unfolding sign_of
sign_of_refl n = ground arith

at_one_number :
    (x y z : ℕ) (a b : List ℕ) (r : Sign)
    → cmp_pre_labels a true b true ≡ r
    → semver_cmp (labelled x y z a) (labelled x y z b) ≡ r
unfolding semver_cmp or_else
at_one_number x y z a b r h = simp (sign_of_refl x, sign_of_refl y, sign_of_refl z) h

labels_cycle :
    (cmp_pre_labels (codes "a2") true (codes "a10") true ≡ less)
    × (cmp_pre_labels (codes "a10") true (codes "a1b") true ≡ less)
    × (cmp_pre_labels (codes "a1b") true (codes "a2") true ≡ less)
unfolding cmp_pre_labels segments cmp_segments cmp_pre_segment is_numeric every same_prefix
    alpha_end strncmp_sign value_from is_same push or_else sign_of
labels_cycle = (refl, refl, refl)

-- The order of pre-releases is not transitive: at every version number a2 is below a10, a10 below
-- a1b, and a1b below a2.
pub semver_cmp-cycle :
    (x y z : ℕ)
    → (semver_cmp (labelled x y z (codes "a2")) (labelled x y z (codes "a10")) ≡ less)
      × (semver_cmp (labelled x y z (codes "a10")) (labelled x y z (codes "a1b")) ≡ less)
      × (semver_cmp (labelled x y z (codes "a1b")) (labelled x y z (codes "a2")) ≡ less)
semver_cmp-cycle x y z = (
  at_one_number x y z (codes "a2") (codes "a10") less labels_cycle.0,
  at_one_number x y z (codes "a10") (codes "a1b") less labels_cycle.1,
  at_one_number x y z (codes "a1b") (codes "a2") less labels_cycle.2,
)
