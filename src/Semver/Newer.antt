-- ===== src/Semver/Newer.antt =====
-- What it means for a version to be above another in semver.c, without its comparison of versions.
use michi_music_stream.Prelude.{
  ℕ, ◌<◌, ◌≡◌, refl, sym, ap, ◌∙◌, ◌⊎◌, inl, inr, Bool, true, false, ◌&&◌, if-split, List, [], ◌∷◌,
  length, drop, arith,
}
use michi_music_stream.Semver.{
  Semver, Sign, less, same, more, sign_of, or_else, strncmp_sign, value_from, is_numeric, alpha_end,
  same_prefix, cmp_pre_segment, segments, cmp_segments, cmp_pre_labels, semver_cmp,
}

-- One string of bytes above another: at the first place where they differ, or by being longer.
unfoldable pub BytesAbove : List ℕ → List ℕ → Type 0
BytesAbove [] ys = ⊥
BytesAbove (x ∷ xs) [] = Unit
BytesAbove (x ∷ xs) (y ∷ ys) = (y < x) ⊎ ((x ≡ y) × BytesAbove xs ys)

-- One segment of a label above another: by value where both are numbers, by the value of the trailing
-- digits where both have the same letters before them, and by their bytes otherwise.
abbrev pub SegmentAbove : List ℕ → List ℕ → Type 0
SegmentAbove a b =
    (((is_numeric a && is_numeric b) ≡ true) × (value_from 0 b < value_from 0 a))
    ⊎ (((is_numeric a && is_numeric b) ≡ false)
        × (same_prefix a b ≡ true)
        × (value_from 0 (drop (alpha_end b) b) < value_from 0 (drop (alpha_end a) a)))
    ⊎ (((is_numeric a && is_numeric b) ≡ false) × (same_prefix a b ≡ false) × BytesAbove a b)

-- One label above another: in the first segment where they differ, or by having more segments.
unfoldable pub SegmentsAbove : List (List ℕ) → List (List ℕ) → Type 0
SegmentsAbove [] ys = ⊥
SegmentsAbove (x ∷ xs) [] = Unit
SegmentsAbove (x ∷ xs) (y ∷ ys) =
    SegmentAbove x y ⊎ ((cmp_pre_segment x y ≡ same) × SegmentsAbove xs ys)

-- A label below none, and two labels by their segments.
unfoldable pub LabelAbove : List ℕ → Bool → List ℕ → Bool → Type 0
LabelAbove a false b false = ⊥
LabelAbove a false b true = Unit
LabelAbove a true b false = ⊥
LabelAbove a true b true = SegmentsAbove (segments a) (segments b)

-- A version above another: by its major number, else its minor, else its patch number, else its label.
abbrev pub IsAbove : Semver → Semver → Type 0
IsAbove a b =
    (b.major < a.major)
    ⊎ ((a.major ≡ b.major) × (b.minor < a.minor))
    ⊎ ((a.major ≡ b.major) × (a.minor ≡ b.minor) × (b.patch < a.patch))
    ⊎ ((a.major ≡ b.major)
        × (a.minor ≡ b.minor)
        × (a.patch ≡ b.patch)
        × LabelAbove a.pre a.has_pre b.pre b.has_pre)

sign_of-more : (a b : ℕ) → sign_of a b ≡ more → b < a
unfolding sign_of
sign_of-more a b h = ground arith

sign_of-same : (a b : ℕ) → sign_of a b ≡ same → a ≡ b
unfolding sign_of
sign_of-same a b h = ground arith

or_else-more : (r next : Sign) → or_else r next ≡ more → (r ≡ more) ⊎ ((r ≡ same) × (next ≡ more))
unfolding or_else
or_else-more same next h = inr (refl, h)
or_else-more less next h = cc
or_else-more more next h = inl refl

-- The comparison of two numbers, and of what follows where they are equal.
sign_of-then :
    (a b : ℕ) (next : Sign)
    → or_else (sign_of a b) next ≡ more
    → (b < a) ⊎ ((a ≡ b) × (next ≡ more))
sign_of-then a b next h = elim (or_else-more (sign_of a b) next h) [
  | inl e ↦ inl (sign_of-more a b e)
  | inr (e, f) ↦ inr (sign_of-same a b e, f)
]

or_else_assoc : (a b c : Sign) → or_else (or_else a b) c ≡ or_else a (or_else b c)
unfolding or_else
or_else_assoc same b c = refl
or_else_assoc less b c = refl
or_else_assoc more b c = refl

sign_of-length :
    (xs ys : List ℕ) (x y : ℕ)
    → sign_of (length (x ∷ xs)) (length (y ∷ ys)) ≡ sign_of (length xs) (length ys)
unfolding sign_of
sign_of-length xs ys x y = ground arith

not_longer : (n : ℕ) → or_else same (sign_of 0 n) ≡ more → ⊥
unfolding or_else sign_of
not_longer n h = ground arith

bytes_above :
    (a b : List ℕ)
    → or_else (strncmp_sign a b) (sign_of (length a) (length b)) ≡ more
    → BytesAbove a b
unfolding strncmp_sign BytesAbove
bytes_above [] b h = not_longer (length b) h
bytes_above (x ∷ xs) [] h = tt
bytes_above (x ∷ xs) (y ∷ ys) h =
    elim (sign_of-then x y _ (sym (or_else_assoc (sign_of x y) (strncmp_sign xs ys) _) ∙ h)) [
      | inl l ↦ inl l
      | inr (e, f) ↦ inr (
        e,
        bytes_above xs ys (ap (or_else (strncmp_sign xs ys)) (sym (sign_of-length xs ys x y)) ∙ f),
      )
    ]

segment_above : (a b : List ℕ) → cmp_pre_segment a b ≡ more → SegmentAbove a b
unfolding cmp_pre_segment
segment_above a b =
    if-split P (is_numeric a && is_numeric b) (λ n h. inl (n, sign_of-more _ _ h))
      (λ n.
        if-split P (same_prefix a b) (λ p h. inr (inl (n, p, sign_of-more _ _ h)))
          (λ p h. inr (inr (n, p, bytes_above a b h))))
  where
    P : Sign → Type 0
    P r = r ≡ more → SegmentAbove a b

segments_above : (a b : List (List ℕ)) → cmp_segments a b ≡ more → SegmentsAbove a b
unfolding cmp_segments SegmentsAbove
segments_above [] [] h = cc
segments_above [] (y ∷ ys) h = cc
segments_above (x ∷ xs) [] h = tt
segments_above (x ∷ xs) (y ∷ ys) h = elim (or_else-more (cmp_pre_segment x y) _ h) [
  | inl e ↦ inl (segment_above x y e)
  | inr (e, f) ↦ inr (e, segments_above xs ys f)
]

label_above :
    (a : List ℕ) (p : Bool) (b : List ℕ) (q : Bool)
    → cmp_pre_labels a p b q ≡ more
    → LabelAbove a p b q
unfolding cmp_pre_labels LabelAbove
label_above a false b false h = cc
label_above a false b true h = tt
label_above a true b false h = cc
label_above a true b true h = segments_above (segments a) (segments b) h

-- The comparison answers "more" only for a version above the other.
pub semver_cmp-IsAbove : (a b : Semver) → semver_cmp a b ≡ more → IsAbove a b
unfolding semver_cmp
semver_cmp-IsAbove a b h = elim (sign_of-then a.major b.major _ h) [
  | inl l ↦ inl l
  | inr (e, h1) ↦ elim (sign_of-then a.minor b.minor _ h1) [
    | inl l ↦ inr (inl (e, l))
    | inr (f, h2) ↦ elim (sign_of-then a.patch b.patch _ h2) [
      | inl l ↦ inr (inr (inl (e, f, l)))
      | inr (g, h3) ↦ inr (inr (inr (e, f, g, label_above a.pre a.has_pre b.pre b.has_pre h3)))
    ]
  ]
]
