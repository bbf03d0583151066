-- ===== src/Home.antt =====
-- The home of a receiver in firmware/components/michi_home/michi_home.c: its credentials, the bytes
-- that certificates sign, the checks of memberships and of device proofs, and the revocations. A
-- fixed buffer holds the bytes before its NUL; `erase` and the setters take the answers of the flash
-- store.
pub mod Payload
pub mod Segments
pub mod Roles
pub mod Signed
pub mod Revoked
use michi_music_stream.Prelude.{
  ℕ, zero, suc, ◌+◌, ◌-◌, ◌/◌, ◌%◌, min, Bool, true, false, not, ◌&&◌, ◌||◌, Option, none, some,
  List, [], ◌∷◌, ◌++◌, map, ltb, leb, ◌==◌, if◌then◌else◌, length, take, set, EspErr, is_ok, str_eq,
}
use michi_music_stream.Identity.{Crypto, base64url_decode, derive_michi_id}
use michi_music_stream.Home.Payload.{
  append_all, sort_roles, with_colon, print_nat, domain_membership, domain_device_auth,
  domain_server_auth, domain_revocation,
}

-- `michi_membership_t`; `roles` is the array.
pub record Membership : Type 0 where
  pub version : ℕ
  pub home_id : List ℕ
  pub device_michi_id : List ℕ
  pub device_public_key : List ℕ
  pub device_type : List ℕ
  pub roles : List (List ℕ)
  pub role_count : ℕ
  pub issued_at : List ℕ
  pub serial : ℕ
  pub signature : List ℕ

-- `michi_revocation_t`.
pub record Revocation : Type 0 where
  pub version : ℕ
  pub home_id : List ℕ
  pub revoked_device_michi_id : List ℕ
  pub revoked_at : List ℕ
  pub reason : List ℕ
  pub signature : List ℕ

-- The statics of the file; `revocations` is the first `s_revocation_count` entries of the array.
pub record Home : Type 0 where
  pub provisioned : Bool
  pub home_id : List ℕ
  pub root_pk : List ℕ
  pub revocations : List Revocation

-- MICHI_HOME_KEY_BYTES, MICHI_HOME_SIG_BYTES, MICHI_HOME_ID_LEN, MICHI_MAX_MEMBERSHIP_ROLES and
-- MICHI_MAX_REVOCATIONS.
abbrev pub key_bytes : ℕ
key_bytes = 32

abbrev pub sig_bytes : ℕ
sig_bytes = 64

abbrev pub id_len : ℕ
id_len = 44

abbrev pub max_membership_roles : ℕ
max_membership_roles = 16

abbrev pub max_revocations : ℕ
max_revocations = 16

-- `michi_home_get_id` into a buffer of `id_len`, and `michi_home_get_root_public_key`.
unfoldable pub get_id : Home → EspErr × List ℕ
get_id h = if h.provisioned then (EspErr.ok, take 43 h.home_id) else (EspErr.not_found, [])

unfoldable pub get_root_public_key : Home → EspErr × List ℕ
get_root_public_key h = if h.provisioned then (EspErr.ok, h.root_pk) else (EspErr.not_found, [])

-- `michi_home_set_credentials`, with the store's answer.
unfoldable pub set_credentials : EspErr → List ℕ → List ℕ → Home → EspErr × Home
set_credentials stored home_id root_pk h =
    if not (length home_id == 43)
    then (EspErr.invalid_arg, h)
    else if is_ok stored
    then (stored, record h { provisioned = true; home_id = home_id; root_pk = root_pk })
    else (stored, h)

-- `michi_home_erase`, whatever the store answers.
unfoldable pub erase : Home → Home
erase h = record { provisioned = false; home_id = []; root_pk = []; revocations = [] }

-- The roles that the signature covers.
abbrev pub signed_roles : Membership → List (List ℕ)
signed_roles m = take (min m.role_count max_membership_roles) m.roles

-- The parts that `michi_home_canonical_membership_bytes` appends, in order.
unfoldable pub membership_parts : Membership → List (List ℕ)
membership_parts m =
    domain_membership
      ∷ m.home_id
      ∷ m.device_michi_id
      ∷ m.device_public_key
      ∷ m.device_type
      ∷ with_colon (sort_roles (signed_roles m))
    ++ (b':' ∷ []) ∷ m.issued_at ∷ (b':' ∷ []) ∷ print_nat 20 m.serial ∷ []

-- `none` is an answer of 0: the bytes do not fit.
unfoldable pub canonical_membership_bytes : Membership → ℕ → Option (List ℕ)
canonical_membership_bytes m out_len = append_all out_len [] (membership_parts m)

-- A decoded signature of the right length, under a key.
unfoldable pub checks : Crypto → Option (List ℕ) → List ℕ → List ℕ → Bool
checks crypto none sig pk = false
checks crypto (some bytes) sig pk = crypto.ed25519_check bytes sig pk

-- A text that decodes to exactly `n` bytes.
unfoldable pub decodes_to : ℕ → List ℕ → Bool
decodes_to n text = let (err, bytes) = base64url_decode text n in is_ok err && length bytes == n

-- The device id is that of the device's key.
unfoldable pub id_derives : Crypto → List ℕ → List ℕ → Bool
id_derives crypto key_text id =
    let (err, derived) = derive_michi_id crypto (base64url_decode key_text key_bytes).1 id_len in
    decodes_to key_bytes key_text && is_ok err && str_eq derived id

unfoldable pub verify_membership : Crypto → Home → Membership → List ℕ → Bool
verify_membership crypto h m root_pk =
    m.version == 1
    && id_derives crypto m.device_public_key m.device_michi_id
    && not (h.provisioned && not (str_eq h.home_id m.home_id))
    && decodes_to sig_bytes m.signature
    && checks crypto (canonical_membership_bytes m 512) (base64url_decode m.signature sig_bytes).1
        root_pk

-- `michi_home_device_auth_payload`.
unfoldable pub device_auth_payload :
    List ℕ → List ℕ → List ℕ → List ℕ → List ℕ → ℕ → Option (List ℕ)
device_auth_payload home_id server client challenge_id nonce out_len =
    append_all out_len []
      (domain_device_auth ∷ home_id ∷ server ∷ client ∷ challenge_id ∷ nonce ∷ [])

unfoldable pub verify_device_auth :
    Crypto → List ℕ → List ℕ → List ℕ → List ℕ → List ℕ → List ℕ → List ℕ → Bool
verify_device_auth crypto home_id server client challenge_id nonce sig client_pk =
    checks crypto (device_auth_payload home_id server client challenge_id nonce 256) sig client_pk

-- The bytes that `michi_home_sign_server_auth` signs; `none` is ESP_ERR_INVALID_SIZE.
unfoldable pub server_auth_payload : List ℕ → List ℕ → List ℕ → List ℕ → List ℕ → Option (List ℕ)
server_auth_payload home_id server client challenge_id token =
    append_all 256 [] (domain_server_auth ∷ home_id ∷ server ∷ client ∷ challenge_id ∷ token ∷ [])

unfoldable pub canonical_revocation_bytes : Revocation → ℕ → Option (List ℕ)
canonical_revocation_bytes r out_len = append_all out_len [] (
    domain_revocation
    ∷ r.home_id
    ∷ r.revoked_device_michi_id
    ∷ (b':' ∷ [])
    ∷ r.revoked_at
    ∷ (b':' ∷ [])
    ∷ r.reason
    ∷ [])

unfoldable pub verify_revocation : Crypto → Home → Revocation → List ℕ → Bool
verify_revocation crypto h r root_pk =
    r.version == 1
    && not (h.provisioned && not (str_eq h.home_id r.home_id))
    && decodes_to sig_bytes r.signature
    && checks crypto (canonical_revocation_bytes r 512) (base64url_decode r.signature sig_bytes).1
        root_pk

-- `michi_home_is_device_revoked`.
unfoldable pub is_device_revoked : List ℕ → List Revocation → Bool
is_device_revoked id [] = false
is_device_revoked id (r ∷ rs) = str_eq r.revoked_device_michi_id id || is_device_revoked id rs

-- The first entry of the same device replaced; `none` if there is none.
unfoldable pub replace_revocation : Revocation → List Revocation → Option (List Revocation)
replace_revocation r [] = none
replace_revocation r (x ∷ xs) = elim (replace_revocation r xs) [
  | none ↦
      if str_eq x.revoked_device_michi_id r.revoked_device_michi_id then some (r ∷ xs) else none
  | some ys ↦
      if str_eq x.revoked_device_michi_id r.revoked_device_michi_id
      then some (r ∷ xs)
      else some (x ∷ ys)
]

saved : EspErr → List Revocation → Revocation → Home → EspErr × Option (List ℕ) × Home
saved stored rs r h =
    if is_ok stored
    then (EspErr.ok, some r.revoked_device_michi_id, record h { revocations = rs })
    else (stored, none, h)

put_revocation :
    EspErr → Option (List Revocation) → Revocation → Home → EspErr × Option (List ℕ) × Home
unfolding saved
put_revocation stored (some rs) r h = saved stored rs r h
put_revocation stored none r h =
    if leb max_revocations (length h.revocations)
    then (EspErr.no_mem, none, h)
    else saved stored (h.revocations ++ r ∷ []) r h

-- `michi_home_add_revocation`, with the store's answer: the status, the device that the callback is
-- called with, and the statics. A failed save restores them.
unfoldable pub add_revocation :
    Crypto → EspErr → Revocation → Home → EspErr × Option (List ℕ) × Home
unfolding put_revocation
add_revocation crypto stored r h =
    if not h.provisioned
    then (EspErr.invalid_state, none, h)
    else if not (verify_revocation crypto h r h.root_pk)
    then (EspErr.invalid_response, none, h)
    else put_revocation stored (replace_revocation r h.revocations) r h
