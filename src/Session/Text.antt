-- ===== src/Session/Text.antt =====
-- The text routines of michi_session.c: the session token and its encoding, the session id and the
-- checks of an owner and an address. A byte string is the list of its bytes before the NUL.
use michi_music_stream.Prelude.{
  ℕ, zero, suc, ◌>>=◌, ◌+◌, ◌-◌, ◌*◌, ◌/◌, ◌%◌, ◌^◌, Bool, true, false, ◌&&◌, ◌||◌, not, Option,
  none, some, List, [], ◌∷◌, ◌++◌, ltb, leb, if◌then◌else◌, ◌==◌, length, get_or, codes, take, drop,
}

abbrev pub token_b64_len : ℕ
token_b64_len = 43

abbrev pub between : ℕ → ℕ → ℕ → Bool
between lo hi c = leb lo c && leb c hi

abbrev pub is_alnum : ℕ → Bool
is_alnum c = between 65 90 c || (between 97 122 c || between 48 57 c)

-- `b64url_char_ok`, and the test of `owner_id_valid`.
abbrev pub b64url_char_ok : ℕ → Bool
b64url_char_ok c = is_alnum c || (c == 45 || c == 95)

unfoldable pub all_chars : (ℕ → Bool) → List ℕ → Bool
all_chars p [] = true
all_chars p (c ∷ cs) = p c && all_chars p cs

-- `michi_session_token_valid`; NULL is no token.
unfoldable pub token_valid : Option (List ℕ) → Bool
unfolding all_chars
token_valid none = false
token_valid (some t) = length t == token_b64_len && all_chars b64url_char_ok t

abbrev pub alphabet : List ℕ
alphabet = codes "ABCDEFGHIJKLMNOPQRSTUVWXYZabcdefghijklmnopqrstuvwxyz0123456789-_"

-- `k_b64[v]`.
unfoldable pub b64_char : ℕ → ℕ
b64_char v = get_or alphabet v 0

unfoldable pub b64url_encode : List ℕ → List ℕ
b64url_encode [] = []
b64url_encode (a ∷ []) =
    let v = a * 2 ^ 16 in b64_char (v / 2 ^ 18 % 64) ∷ b64_char (v / 2 ^ 12 % 64) ∷ []
b64url_encode (a ∷ b ∷ []) =
    let v = a * 2 ^ 16 + b * 2 ^ 8 in
    b64_char (v / 2 ^ 18 % 64) ∷ b64_char (v / 2 ^ 12 % 64) ∷ b64_char (v / 2 ^ 6 % 64) ∷ []
b64url_encode (a ∷ b ∷ c ∷ rest) =
    let v = a * 2 ^ 16 + b * 2 ^ 8 + c in
    b64_char (v / 2 ^ 18 % 64)
    ∷ b64_char (v / 2 ^ 12 % 64)
    ∷ b64_char (v / 2 ^ 6 % 64)
    ∷ b64_char (v % 64)
    ∷ b64url_encode rest

unfoldable pub hex_digit : ℕ → ℕ
hex_digit d = if ltb d 10 then 48 + d else 87 + d

-- `%0<width>x` on a value below 16 ^ width.
unfoldable pub hex : ℕ → ℕ → List ℕ
hex zero n = []
hex (suc width) n = hex width (n / 16) ++ hex_digit (n % 16) ∷ []

-- `uuid_v4_generate` on its four random words; the last word is padded to twelve digits.
unfoldable pub uuid_v4 : ℕ → ℕ → ℕ → ℕ → List ℕ
uuid_v4 a b c d =
    hex 8 a
    ++ 45 ∷ hex 4 (b % 2 ^ 16)
    ++ 45 ∷ 52 ∷ hex 3 (b / 2 ^ 16 % 2 ^ 12)
    ++ 45 ∷ hex 4 (c % 2 ^ 14 + 2 ^ 15)
    ++ 45 ∷ hex 12 d

-- `isspace` of the C locale.
abbrev pub is_space : ℕ → Bool
is_space c = c == 32 || between 9 13 c

unfoldable pub skip_space : List ℕ → List ℕ
skip_space [] = []
skip_space (c ∷ cs) = if is_space c then skip_space cs else c ∷ cs

-- The digits at the head of the input, after the value and the number of those read.
unfoldable pub scan_digits : ℕ → ℕ → List ℕ → Option (ℕ × List ℕ)
scan_digits n v [] = if n == 0 then none else some (v, [])
scan_digits n v (c ∷ cs) =
    let rest = scan_digits (n + 1) (v * 10 + (c - 48)) cs in
    if between 48 57 c then rest else if n == 0 then none else some (v, c ∷ cs)

-- `strtoul` into 32 bits: saturates, and negates a value with a minus sign.
unfoldable pub to_unsigned : Bool → ℕ → ℕ
to_unsigned minus v =
    if leb (2 ^ 32) v then 2 ^ 32 - 1 else if minus then (2 ^ 32 - v) % 2 ^ 32 else v

unfoldable pub signed_digits : Bool → List ℕ → Option (ℕ × List ℕ)
signed_digits minus cs = do (v, rest) ← scan_digits 0 0 cs; some (to_unsigned minus v, rest)

unfoldable pub scan_sign : List ℕ → Option (ℕ × List ℕ)
scan_sign [] = none
scan_sign (c ∷ cs) =
    if c == 45
    then signed_digits true cs
    else if c == 43
    then signed_digits false cs
    else signed_digits false (c ∷ cs)

-- The conversion `%u` of `sscanf`.
unfoldable pub scan_unsigned : List ℕ → Option (ℕ × List ℕ)
scan_unsigned cs = scan_sign (skip_space cs)

-- A literal `.` of the format.
unfoldable pub scan_dot : List ℕ → Option (List ℕ)
scan_dot [] = none
scan_dot (c ∷ cs) = if c == 46 then some cs else none

unfoldable pub octet : List ℕ → Option (ℕ × List ℕ)
octet cs = do (v, rest) ← scan_unsigned cs; if leb v 255 then some (v, rest) else none

unfoldable pub dot_octet : List ℕ → Option (ℕ × List ℕ)
dot_octet cs = do rest ← scan_dot cs; octet rest

is_empty : List ℕ → Bool
is_empty [] = true
is_empty (c ∷ cs) = false

unfoldable pub all_octets : List ℕ → Option Bool
unfolding is_empty
all_octets s = do
  (a, s1) ← octet s
  (b, s2) ← dot_octet s1
  (c, s3) ← dot_octet s2
  (d, s4) ← dot_octet s3
  some (is_empty s4)

-- `ipv4_dotted_valid`.
unfoldable pub ipv4_dotted_valid : List ℕ → Bool
ipv4_dotted_valid s = elim (all_octets s) [ none ↦ false | some b ↦ b ]

-- Whether the first n bytes of two buffers are the same.
unfoldable pub bytes_match : ℕ → List ℕ → List ℕ → Bool
bytes_match zero a b = true
bytes_match (suc n) a b = get_or a 0 0 == get_or b 0 0 && bytes_match n (drop 1 a) (drop 1 b)

unfoldable pub token_matches : List ℕ → List ℕ → Bool
token_matches a b = bytes_match token_b64_len a b

abbrev pub owner_max : ℕ
owner_max = 63

unfoldable pub owner_id_valid : List ℕ → Bool
owner_id_valid id = not (length id == 0 || ltb owner_max (length id)) && all_chars b64url_char_ok id

-- `strlcpy(dst, src, size)` and `snprintf(dst, size, "%s", src)`.
unfoldable pub copy_str : ℕ → List ℕ → List ℕ
copy_str size src = take (size - 1) src
