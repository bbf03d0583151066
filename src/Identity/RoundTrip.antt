-- ===== src/Identity/RoundTrip.antt =====
-- Decoding undoes encoding.
use michi_music_stream.Prelude.{
  ℕ, zero, suc, ◌+◌, ◌-◌, ◌*◌, ◌/◌, ◌%◌, ◌^◌, ◌≤◌, ◌<◌, ◌≡◌, refl, ap, ap₂, ◌∙◌, Bool, true, false,
  ◌&&◌, Option, none, some, List, [], ◌∷◌, ltb, ◌==◌, length, EspErr, arith, All, inl, inr,
  ==-cases, &&-both,
}
use michi_music_stream.Session.Text.{b64url_encode, b64_char}
use michi_music_stream.Identity.{
  base64url_value, decode_from, base64url_decode, base64url_encode, required_len,
}

is_some_of : ℕ → Option ℕ → Bool
is_some_of v none = false
is_some_of v (some w) = v == w

all_values : ℕ → Bool
unfolding is_some_of
all_values zero = true
all_values (suc n) = is_some_of n (base64url_value (b64_char n)) && all_values n

is_some_of_sound : (v : ℕ) (o : Option ℕ) → is_some_of v o ≡ true → o ≡ some v
unfolding is_some_of
is_some_of_sound v none h = cc
is_some_of_sound v (some w) h = ground arith

all_values_sound : (n v : ℕ) → all_values n ≡ true → v < n → base64url_value (b64_char v) ≡ some v
unfolding all_values
all_values_sound zero v h l = absurd (omega arith)
all_values_sound (suc n) v h l = elim (==-cases v n) [
  | inl (t, e) ↦ rw e (is_some_of_sound n _ (&&-both _ _ h).0)
  | inr (t, ne) ↦ all_values_sound n v (&&-both _ _ h).1 (omega arith)
]

value_of_char : (v : ℕ) → v < 64 → base64url_value (b64_char v) ≡ some v
unfolding all_values base64url_value b64_char
value_of_char v l = all_values_sound 64 v refl l

-- The accumulator after six more bits.
abbrev shift_in : ℕ → ℕ → ℕ
shift_in acc v = (acc * 64 % 2 ^ 32 + v) % 2 ^ 32

first_byte :
    (acc n : ℕ)
    → n < 2 ^ 24
    → shift_in (shift_in acc (n / 2 ^ 18 % 64)) (n / 2 ^ 12 % 64) / 2 ^ 4 % 256 ≡ n / 2 ^ 16
first_byte acc n h = omega arith

second_byte :
    (acc n : ℕ)
    → shift_in (shift_in acc (n / 2 ^ 12 % 64)) (n / 2 ^ 6 % 64) / 2 ^ 2 % 256 ≡ n / 2 ^ 8 % 256
second_byte acc n = omega arith

third_byte : (acc n : ℕ) → shift_in (shift_in acc (n / 2 ^ 6 % 64)) (n % 64) / 2 ^ 0 % 256 ≡ n % 256
third_byte acc n = omega arith

-- One character: six bits that wait, or a byte.
decode-wait :
    (acc bits room v : ℕ) (cs : List ℕ)
    → v < 64
    → bits + 6 < 8
    → decode_from acc bits room (b64_char v ∷ cs) ≡ decode_from (shift_in acc v) (bits + 6) room cs
unfolding decode_from
decode-wait acc bits room v cs l h = rw (value_of_char v l, decode_from) (ground arith)

decode-byte :
    (acc bits room v : ℕ) (cs : List ℕ)
    → v < 64
    → 8 ≤ bits + 6
    → 0 < room
    → decode_from acc bits room (b64_char v ∷ cs) ≡ (
        let (err, out) = decode_from (shift_in acc v) (bits - 2) (room - 1) cs in
        (err, shift_in acc v / 2 ^ (bits - 2) % 256 ∷ out))
unfolding decode_from
decode-byte acc bits room v cs l h k = rw (value_of_char v l, decode_from) (ground arith)

then_byte : ℕ → EspErr × List ℕ → EspErr × List ℕ
then_byte b (err, out) = (err, b ∷ out)

module _ (acc room n : ℕ) (small : n < 2 ^ 24) (cs : List ℕ) where
  -- The first two characters of a group give its first byte, and leave four bits.
  decode-two :
      0 < room
      → decode_from acc 0 room (b64_char (n / 2 ^ 18 % 64) ∷ b64_char (n / 2 ^ 12 % 64) ∷ cs)
        ≡ then_byte (n / 2 ^ 16) (
            decode_from
              (shift_in (shift_in acc (n / 2 ^ 18 % 64)) (n / 2 ^ 12 % 64))
              4
              (room - 1)
              cs)
  unfolding then_byte
  decode-two h =
      decode-wait acc 0 room (n / 2 ^ 18 % 64) (b64_char (n / 2 ^ 12 % 64) ∷ cs) (omega arith)
        (omega arith)
      ∙ (decode-byte (shift_in acc (n / 2 ^ 18 % 64)) 6 room (n / 2 ^ 12 % 64) cs (omega arith)
            (omega arith) h
          ∙ ap
              (λ (b : ℕ). then_byte b (
                decode_from (shift_in (shift_in acc (n / 2 ^ 18 % 64)) (n / 2 ^ 12 % 64)) 4
                  (room - 1) cs))
              (first_byte acc n small))

  -- With four bits pending, the third character gives the second byte.
  decode-third :
      0 < room
      → decode_from (shift_in acc (n / 2 ^ 12 % 64)) 4 room (b64_char (n / 2 ^ 6 % 64) ∷ cs)
        ≡ then_byte (n / 2 ^ 8 % 256) (
            decode_from
              (shift_in (shift_in acc (n / 2 ^ 12 % 64)) (n / 2 ^ 6 % 64))
              2
              (room - 1)
              cs)
  unfolding then_byte
  decode-third h =
      decode-byte (shift_in acc (n / 2 ^ 12 % 64)) 4 room (n / 2 ^ 6 % 64) cs (omega arith)
        (omega arith) h
      ∙ ap
          (λ (b : ℕ). then_byte b (
            decode_from (shift_in (shift_in acc (n / 2 ^ 12 % 64)) (n / 2 ^ 6 % 64)) 2 (room - 1)
              cs))
          (second_byte acc n)

  -- With two bits pending, the fourth gives the third byte, and nothing is left.
  decode-fourth :
      0 < room
      → decode_from (shift_in acc (n / 2 ^ 6 % 64)) 2 room (b64_char (n % 64) ∷ cs)
        ≡ then_byte
            (n % 256)
            (decode_from (shift_in (shift_in acc (n / 2 ^ 6 % 64)) (n % 64)) 0 (room - 1) cs)
  unfolding then_byte
  decode-fourth h =
      decode-byte (shift_in acc (n / 2 ^ 6 % 64)) 2 room (n % 64) cs (omega arith) (omega arith) h
      ∙ ap
          (λ (b : ℕ).
            then_byte b
              (decode_from (shift_in (shift_in acc (n / 2 ^ 6 % 64)) (n % 64)) 0 (room - 1) cs))
          (third_byte acc n)

decode_end : (acc bits room : ℕ) → bits < 6 → decode_from acc bits room [] ≡ (EspErr.ok, [])
unfolding decode_from
decode_end acc bits room h = ground arith

abbrev pub IsByte : ℕ → Type 0
IsByte b = b < 256

decode_from-b64url_encode :
    (bs : List ℕ) (acc room : ℕ)
    → All IsByte bs
    → length bs ≤ room
    → decode_from acc 0 room (b64url_encode bs) ≡ (EspErr.ok, bs)
unfolding b64url_encode then_byte
decode_from-b64url_encode [] acc room h l = decode_end acc 0 room (omega arith)
decode_from-b64url_encode (a ∷ []) acc room h l =
    let n : ℕ = a * 2 ^ 16 in
    decode-two acc room n (omega (arith, h.0)) [] (omega arith)
    ∙ (ap (then_byte (n / 2 ^ 16)) (decode_end _ 4 (room - 1) (omega arith))
        ∙ ap (λ (b : ℕ). (EspErr.ok, b ∷ [])) (omega arith))
decode_from-b64url_encode (a ∷ b ∷ []) acc room h l =
    let n : ℕ = a * 2 ^ 16 + b * 2 ^ 8 in
    let acc1 = shift_in acc (n / 2 ^ 18 % 64) in
    let ha = h.0 in
    let hb = h.1.0 in
    decode-two acc room n (omega arith) (b64_char (n / 2 ^ 6 % 64) ∷ []) (omega arith)
    ∙ (ap (then_byte (n / 2 ^ 16)) (
          decode-third acc1 (room - 1) n (omega arith) [] (omega arith)
          ∙ ap (then_byte (n / 2 ^ 8 % 256)) (decode_end _ 2 (room - 1 - 1) (omega arith)))
        ∙ ap₂ (λ (x y : ℕ). (EspErr.ok, x ∷ y ∷ [])) (omega arith) (omega arith))
decode_from-b64url_encode (a ∷ b ∷ c ∷ rest) acc room h l =
    let n : ℕ = a * 2 ^ 16 + b * 2 ^ 8 + c in
    let acc1 = shift_in acc (n / 2 ^ 18 % 64) in
    let acc2 = shift_in acc1 (n / 2 ^ 12 % 64) in
    let cs = b64url_encode rest in
    let ha = h.0 in
    let hb = h.1.0 in
    let hc = h.1.1.0 in
    let rest_lem : decode_from _ 0 (room - 1 - 1 - 1) cs ≡ (EspErr.ok, rest) =
      decode_from-b64url_encode rest (shift_in (shift_in acc2 (n / 2 ^ 6 % 64)) (n % 64))
        (room - 1 - 1 - 1) h.1.1.1 (omega arith) in
    decode-two acc room n (omega arith) (b64_char (n / 2 ^ 6 % 64) ∷ b64_char (n % 64) ∷ cs)
      (omega arith)
    ∙ (ap (then_byte (n / 2 ^ 16)) (
          decode-third acc1 (room - 1) n (omega arith) (b64_char (n % 64) ∷ cs) (omega arith)
          ∙ ap (then_byte (n / 2 ^ 8 % 256)) (
              decode-fourth acc2 (room - 1 - 1) n (omega arith) cs (omega arith)
              ∙ ap (then_byte (n % 256)) rest_lem))
        ∙ (ap₂ (λ (x y : ℕ). (EspErr.ok, x ∷ y ∷ (n % 256) ∷ rest)) (omega arith) (omega arith)
            ∙ ap (λ (z : ℕ). (EspErr.ok, a ∷ b ∷ z ∷ rest)) (omega arith)))

-- Any bytes that fit the buffer come back from their encoding.
pub base64url_decode-base64url_encode :
    (bytes : List ℕ) (out_len out_cap : ℕ)
    → All IsByte bytes
    → 0 < length bytes
    → required_len (length bytes) ≤ out_len
    → length bytes ≤ out_cap
    → let (err, text) = base64url_encode bytes out_len in
      (err ≡ EspErr.ok) × (base64url_decode text out_cap ≡ (EspErr.ok, bytes))
unfolding base64url_encode base64url_decode
base64url_decode-base64url_encode bytes out_len out_cap h pos room cap =
    let back = decode_from-b64url_encode bytes 0 out_cap h cap in
    rw (positive_test (length bytes) pos, room_test out_len (required_len (length bytes)) room)
      (refl, back)
  where
    positive_test : (n : ℕ) → 0 < n → (n == 0) ≡ false
    positive_test n p = ground arith

    room_test : (a b : ℕ) → b ≤ a → ltb a b ≡ false
    room_test a b p = ground arith
