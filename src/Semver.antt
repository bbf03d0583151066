-- ===== src/Semver.antt =====
-- Versions: firmware/components/michi_ota/semver.c and the update latch of michi_ota_logic.c. A string
-- is the list of its bytes; NULL, which the C refuses, has no counterpart.
pub mod Order
pub mod Newer
pub mod Latch
use michi_music_stream.Prelude.{
  ℕ, zero, suc, ◌+◌, ◌-◌, ◌*◌, ◌%◌, ◌^◌, Bool, true, false, ◌&&◌, ◌||◌, not, Option, none, some,
  List, [], ◌∷◌, ltb, leb, if◌then◌else◌, ◌==◌, ◌>>=◌, length, take, drop,
}

-- `semver_t`; `pre` is the label before its NUL.
pub record Semver : Type 0 where
  pub major : ℕ
  pub minor : ℕ
  pub patch : ℕ
  pub has_pre : Bool
  pub pre : List ℕ

abbrev pub is_digit : ℕ → Bool
is_digit c = leb 48 c && leb c 57

-- The characters of a label.
abbrev pub is_label_char : ℕ → Bool
is_label_char c = is_digit c || ((leb 65 c && leb c 90) || ((leb 97 c && leb c 122) || c == 46))

unfoldable pub every : (ℕ → Bool) → List ℕ → Bool
every p [] = true
every p (c ∷ cs) = p c && every p cs

-- The loop of `parse_uint16` from a value read so far.
unfoldable pub read_digits : ℕ → List ℕ → Option (ℕ × List ℕ)
read_digits v [] = some (v, [])
read_digits v (c ∷ cs) =
    let rest = read_digits (v * 10 + (c - 48)) cs in
    if not (is_digit c)
    then some (v, c ∷ cs)
    else if ltb 65535 (v * 10 + (c - 48))
    then none
    else rest

unfoldable pub starts_digit : List ℕ → Bool
starts_digit [] = false
starts_digit (c ∷ cs) = is_digit c

unfoldable pub parse_uint16 : List ℕ → Option (ℕ × List ℕ)
unfolding starts_digit
parse_uint16 [] = none
parse_uint16 (c ∷ cs) =
    if not (is_digit c) || (c == 48 && starts_digit cs) then none else read_digits 0 (c ∷ cs)

-- `*p != '.'` and `p++`.
unfoldable pub skip_dot : List ℕ → Option (List ℕ)
skip_dot [] = none
skip_dot (c ∷ cs) = if c == 46 then some cs else none

-- SEMVER_PRE_MAX.
abbrev pub pre_max : ℕ
pre_max = 32

unfoldable pub parse_label : ℕ → ℕ → ℕ → List ℕ → Option Semver
parse_label major minor patch label =
    if length label == 0 || (not (every is_label_char label) || leb pre_max (length label))
    then none
    else some (record { major = major; minor = minor; patch = patch; has_pre = true; pre = label })

-- What follows the patch number.
unfoldable pub parse_tail : ℕ → ℕ → ℕ → List ℕ → Option Semver
parse_tail major minor patch [] =
    some (record { major = major; minor = minor; patch = patch; has_pre = false; pre = [] })
parse_tail major minor patch (c ∷ cs) = if c == 45 then parse_label major minor patch cs else none

unfoldable pub semver_parse : List ℕ → Option Semver
semver_parse s = do
  (major, s1) ← parse_uint16 s
  s2 ← skip_dot s1
  (minor, s3) ← parse_uint16 s2
  s4 ← skip_dot s3
  (patch, s5) ← parse_uint16 s4
  parse_tail major minor patch s5

-- The sign of a comparison's int.
pub data Sign : Type 0 where
  less same more : Sign

unfoldable pub sign_of : ℕ → ℕ → Sign
sign_of a b = if ltb a b then less else if ltb b a then more else same

-- `r != 0 ? r : next`.
unfoldable pub or_else : Sign → Sign → Sign
or_else same r = r
or_else r next = r

-- `strncmp` up to the shorter of two segments.
unfoldable pub strncmp_sign : List ℕ → List ℕ → Sign
strncmp_sign [] b = same
strncmp_sign (x ∷ xs) [] = same
strncmp_sign (x ∷ xs) (y ∷ ys) = or_else (sign_of x y) (strncmp_sign xs ys)

-- The value of a run of digits; `unsigned long` has 32 bits on the target.
unfoldable pub value_from : ℕ → List ℕ → ℕ
value_from v [] = v
value_from v (c ∷ cs) = value_from ((v * 10 + (c - 48)) % 2 ^ 32) cs

unfoldable pub is_numeric : List ℕ → Bool
is_numeric s = not (length s == 0) && every is_digit s

-- Where the trailing digits begin.
unfoldable pub alpha_end : List ℕ → ℕ
alpha_end [] = 0
alpha_end (c ∷ cs) = let r = alpha_end cs in if r == 0 then (if is_digit c then 0 else 1) else suc r

unfoldable pub is_same : Sign → Bool
is_same same = true
is_same r = false

unfoldable pub same_prefix : List ℕ → List ℕ → Bool
unfolding is_same
same_prefix a b =
    (alpha_end a == alpha_end b && not (alpha_end a == 0))
    && is_same (strncmp_sign (take (alpha_end a) a) (take (alpha_end b) b))

unfoldable pub cmp_pre_segment : List ℕ → List ℕ → Sign
cmp_pre_segment a b =
    if is_numeric a && is_numeric b
    then sign_of (value_from 0 a) (value_from 0 b)
    else if same_prefix a b
    then sign_of (value_from 0 (drop (alpha_end a) a)) (value_from 0 (drop (alpha_end b) b))
    else or_else (strncmp_sign a b) (sign_of (length a) (length b))

unfoldable pub push : ℕ → List (List ℕ) → List (List ℕ)
push c [] = (c ∷ []) ∷ []
push c (s ∷ ss) = (c ∷ s) ∷ ss

-- The segments of a label, as the loop of `cmp_pre_labels` cuts them: a trailing dot ends the label.
unfoldable pub segments : List ℕ → List (List ℕ)
unfolding push
segments [] = []
segments (c ∷ cs) = let r = segments cs in if c == 46 then [] ∷ r else push c r

unfoldable pub cmp_segments : List (List ℕ) → List (List ℕ) → Sign
cmp_segments [] [] = same
cmp_segments [] (y ∷ ys) = less
cmp_segments (x ∷ xs) [] = more
cmp_segments (x ∷ xs) (y ∷ ys) = or_else (cmp_pre_segment x y) (cmp_segments xs ys)

unfoldable pub cmp_pre_labels : List ℕ → Bool → List ℕ → Bool → Sign
cmp_pre_labels a false b false = same
cmp_pre_labels a false b true = more
cmp_pre_labels a true b false = less
cmp_pre_labels a true b true = cmp_segments (segments a) (segments b)

unfoldable pub semver_cmp : Semver → Semver → Sign
semver_cmp a b = or_else (sign_of a.major b.major) (
    or_else (sign_of a.minor b.minor)
      (or_else (sign_of a.patch b.patch) (cmp_pre_labels a.pre a.has_pre b.pre b.has_pre)))
