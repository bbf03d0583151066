-- ===== src/Identity.antt =====
-- The text form of keys, ids and signatures in firmware/components/michi_identity/michi_identity.c:
-- base64url without padding, both ways, and the device id. BLAKE3 and Ed25519 are third-party code
-- and enter as the record `Crypto`.
pub mod RoundTrip
use michi_music_stream.Prelude.{
  ℕ, zero, suc, ◌+◌, ◌-◌, ◌*◌, ◌/◌, ◌%◌, ◌^◌, Bool, true, false, not, ◌&&◌, ◌||◌, Option, none,
  some, List, [], ◌∷◌, ltb, leb, ◌==◌, if◌then◌else◌, length, EspErr,
}
use michi_music_stream.Session.Text.{b64url_encode, between}

-- The digest of a key (BLAKE3, 32 bytes), the check of a signature and the signing (Ed25519).
pub record Crypto : Type 0 where
  pub blake3 : List ℕ → List ℕ
  pub ed25519_check : List ℕ → List ℕ → List ℕ → Bool
  pub ed25519_sign : List ℕ → List ℕ

-- What `michi_identity_base64url_encode` requires of its buffer, the NUL included.
abbrev pub required_len : ℕ → ℕ
required_len in_len = in_len / 3 * 4 + 1 + (if in_len % 3 == 0 then 0 else in_len % 3 + 1)

unfoldable pub base64url_encode : List ℕ → ℕ → EspErr × List ℕ
base64url_encode bytes out_len =
    if length bytes == 0
    then (EspErr.invalid_arg, [])
    else if ltb out_len (required_len (length bytes))
    then (EspErr.invalid_size, [])
    else (EspErr.ok, b64url_encode bytes)

-- `base64url_value`; `none` is -1.
unfoldable pub base64url_value : ℕ → Option ℕ
base64url_value c =
    if between b'A' b'Z' c
    then some (c - b'A')
    else if between b'a' b'z' c
    then some (c - b'a' + 26)
    else if between b'0' b'9' c
    then some (c - b'0' + 52)
    else if c == b'-'
    then some 62
    else if c == b'_'
    then some 63
    else none

-- The loop of `michi_identity_base64url_decode`: `acc` and `bits` are its accumulator of 32 bits and
-- the number of bits pending in it, `room` is what is left of the output.
unfoldable pub decode_from : ℕ → ℕ → ℕ → List ℕ → EspErr × List ℕ
decode_from acc bits room [] = if leb 6 bits then (EspErr.invalid_arg, []) else (EspErr.ok, [])
decode_from acc bits room (c ∷ cs) = elim (base64url_value c) [
  | none ↦ (EspErr.invalid_arg, [])
  | some v ↦
      (let acc' = (acc * 64 % 2 ^ 32 + v) % 2 ^ 32 in
        let more = decode_from acc' (bits + 6) room cs in
        let (err, out) = decode_from acc' (bits - 2) (room - 1) cs in
        if ltb (bits + 6) 8
        then more
        else if room == 0
        then (EspErr.invalid_size, [])
        else (err, acc' / 2 ^ (bits - 2) % 256 ∷ out))
]

-- The bytes count only where the answer is ESP_OK.
unfoldable pub base64url_decode : List ℕ → ℕ → EspErr × List ℕ
base64url_decode text out_cap = decode_from 0 0 out_cap text

-- `michi_identity_derive_michi_id` into a buffer of `out_len` bytes.
unfoldable pub derive_michi_id : Crypto → List ℕ → ℕ → EspErr × List ℕ
derive_michi_id crypto pk out_len = base64url_encode (crypto.blake3 pk) out_len
