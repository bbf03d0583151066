-- ===== src/Session/Credential.antt =====
-- The session's credential in michi_session.c: its encoding, its comparison, and what a caller without
-- it can do.
use michi_music_stream.Prelude.{
  ℕ, zero, suc, ◌+◌, ◌*◌, ◌/◌, ◌%◌, ◌<◌, Bool, true, ◌&&◌, some, List, [], ◌∷◌, ◌==◌, ◌≡◌, refl,
  arith, length, get_or, drop, &&-both, subst, ◌↔◌,
}
use michi_music_stream.Session.Text.{
  token_valid, all_chars, b64url_char_ok, alphabet, b64_char, b64url_encode, bytes_match,
  token_matches,
}

all_chars-get_or :
    (p : ℕ → Bool) (cs : List ℕ) (i : ℕ)
    → all_chars p cs ≡ true
    → i < length cs
    → p (get_or cs i 0) ≡ true
unfolding all_chars
all_chars-get_or p [] i h l = ground arith
all_chars-get_or p (c ∷ cs) zero h l = (&&-both _ _ h).0
all_chars-get_or p (c ∷ cs) (suc i) h l =
    all_chars-get_or p cs i (&&-both (p c) _ h).1 (omega arith)

b64_char-ok : (v : ℕ) → v < 64 → b64url_char_ok (b64_char v) ≡ true
unfolding b64_char all_chars
b64_char-ok v l = all_chars-get_or b64url_char_ok alphabet v refl l

mod_64 : (n : ℕ) → n % 64 < 64
mod_64 n = omega arith

length-b64url_encode : (bs : List ℕ) → length (b64url_encode bs) ≡ (length bs * 4 + 2) / 3
unfolding b64url_encode
length-b64url_encode [] = omega arith
length-b64url_encode (a ∷ []) = omega arith
length-b64url_encode (a ∷ b ∷ []) = omega arith
length-b64url_encode (a ∷ b ∷ c ∷ rest) = omega (arith, length-b64url_encode rest)

both-&& : (a b : Bool) → a ≡ true → b ≡ true → (a && b) ≡ true
both-&& a b h k = rw (h, k) refl

b64url_encode-chars : (bs : List ℕ) → all_chars b64url_char_ok (b64url_encode bs) ≡ true
unfolding b64url_encode all_chars
b64url_encode-chars [] = refl
b64url_encode-chars (a ∷ []) =
    both-&& _ _ (b64_char-ok _ (mod_64 _)) (both-&& _ _ (b64_char-ok _ (mod_64 _)) refl)
b64url_encode-chars (a ∷ b ∷ []) =
    both-&& _ _ (b64_char-ok _ (mod_64 _))
      (both-&& _ _ (b64_char-ok _ (mod_64 _)) (both-&& _ _ (b64_char-ok _ (mod_64 _)) refl))
b64url_encode-chars (a ∷ b ∷ c ∷ rest) = both-&& _ _ (b64_char-ok _ (mod_64 _)) (
    both-&& _ _ (b64_char-ok _ (mod_64 _)) (
      both-&& _ _ (b64_char-ok _ (mod_64 _))
        (both-&& _ _ (b64_char-ok _ (mod_64 _)) (b64url_encode-chars rest))))

-- The encoding of any 32 bytes is a well-formed token: 43 characters of the base64url alphabet.
pub token_valid-b64url_encode :
    (bs : List ℕ) → length bs ≡ 32 → token_valid (some (b64url_encode bs)) ≡ true
unfolding token_valid
token_valid-b64url_encode bs h =
    both-&& _ _ (is_43 (length (b64url_encode bs)) (length-b64url_encode bs))
      (b64url_encode-chars bs)
  where
    is_43 : (n : ℕ) → n ≡ (length bs * 4 + 2) / 3 → (n == 43) ≡ true
    is_43 n e = ground arith

bytes_match-eq :
    (n : ℕ) (a b : List ℕ) → length a ≡ n → length b ≡ n → bytes_match n a b ≡ true → a ≡ b
unfolding bytes_match
bytes_match-eq zero [] [] h k e = refl
bytes_match-eq zero (x ∷ xs) b h k e = ground arith
bytes_match-eq zero [] (x ∷ xs) h k e = ground arith
bytes_match-eq (suc n) [] b h k e = ground arith
bytes_match-eq (suc n) (x ∷ xs) [] h k e = ground arith
bytes_match-eq (suc n) (x ∷ xs) (y ∷ ys) h k e =
    cons_eq (&&-both _ _ e).0
      (bytes_match-eq n xs ys (omega arith) (omega arith) (&&-both (x == y) _ e).1)
  where
    cons_eq : (x == y) ≡ true → xs ≡ ys → x ∷ xs ≡ y ∷ ys
    cons_eq h k = ground arith

bytes_match_refl : (n : ℕ) (a : List ℕ) → bytes_match n a a ≡ true
unfolding bytes_match
bytes_match_refl zero a = refl
bytes_match_refl (suc n) a =
    both-&& (get_or a 0 0 == get_or a 0 0) _ (ground arith) (bytes_match_refl n (drop 1 a))

-- Two well-formed tokens compare as the same exactly when they are.
pub token_matches_iff :
    (a b : List ℕ)
    → token_valid (some a) ≡ true
    → token_valid (some b) ≡ true
    → (token_matches a b ≡ true) ↔ (a ≡ b)
unfolding token_matches token_valid
token_matches_iff a b h k = (
  bytes_match-eq 43 a b (len a h) (len b k),
  λ e. subst (λ x. bytes_match 43 a x ≡ true) e (bytes_match_refl 43 a),
)
  where
    len : (t : List ℕ) → (length t == 43 && all_chars b64url_char_ok t) ≡ true → length t ≡ 43
    len t h = ground arith
