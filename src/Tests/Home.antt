-- ===== src/Tests/Home.antt =====
-- Runs of the home's certificates, challenges and bearer sessions. The cryptography is a stand-in
-- whose digest of a key is the key and whose signatures all hold.
use michi_music_stream.Prelude.{
  ℕ, true, some, List, [], ◌∷◌, ◌++◌, ◌≡◌, ◌≤◌, refl, arith, codes, replicate, length, All, EspErr,
  get_elem?, str_eq,
}
use michi_music_stream.Identity.{
  Crypto, base64url_encode, base64url_decode, base64url_value, decode_from, derive_michi_id,
}
use michi_music_stream.Identity.RoundTrip.{base64url_decode-base64url_encode}
use michi_music_stream.Session.Text.{b64url_encode, b64_char, hex, hex_digit}
use michi_music_stream.Home.{
  Home, Membership, Revocation, add_revocation, verify_membership, canonical_membership_bytes,
  membership_parts, is_device_revoked, checks, device_auth_payload, get_root_public_key,
  server_auth_payload, verify_device_auth, get_id, id_derives, decodes_to, verify_revocation,
  canonical_revocation_bytes, replace_revocation,
}
use michi_music_stream.Home.Payload.{
  append_all, sort_roles, insert_role, strcmp_le, with_colon, print_nat, domain_membership,
}
use michi_music_stream.Home.Signed.{IsIssued, SameSigned, canonical_membership_bytes-injective}
use michi_music_stream.Home.Roles.{with_type, verify_membership-shifted}
use michi_music_stream.Home.Revoked.{Revokes, add_revocation-Revokes}
use michi_music_stream.Auth.Slots.{find_index, count_if}
use michi_music_stream.Auth.Accepted.{bearers, validate-verify_and_create_session}
use michi_music_stream.Auth.{
  verify_and_create_session, Attempt, Answer, Client, Challenge, AuthSession, Auth, AuthCall,
  create_call, begin_call, finish_call, validate_call, auth_run, create_challenge, finish_session,
  auth_step, prepare, attempt, begin_session, check_answer, consume, fresh_session, session_slot,
  sign_token, validate_in, validate_token_perm, finish_step, remove_at, fresh_challenge,
  issue_challenge, mint_challenge, hex_bytes, mint_uuid_v4, purge_challenge, purge_session,
  purge_expired, reset, role_permissions, role_perms,
}
use michi_music_stream.Auth.Grants.{Granted, sessions-Granted}
use michi_music_stream.Auth.Counts.{sessions-le-challenges}
use michi_music_stream.Auth.Unique.{sessions_of, sessions_of-le_one}
use michi_music_stream.Auth.Eviction.{create_challenge-keeps}
use michi_music_stream.Auth.Tokens.{use_token, use_token-revoked, holds}

abbrev crypto : Crypto
crypto = record {
  blake3 = λ pk. pk;
  ed25519_check = λ payload sig pk. true;
  ed25519_sign = λ payload. replicate 64 0;
}

base64url_decode-base64url_encode_example :
    let (err, text) = base64url_encode (255 ∷ 0 ∷ 128 ∷ 7 ∷ []) 7 in
    (err ≡ EspErr.ok) × (base64url_decode text 4 ≡ (EspErr.ok, 255 ∷ 0 ∷ 128 ∷ 7 ∷ []))
base64url_decode-base64url_encode_example =
    base64url_decode-base64url_encode (255 ∷ 0 ∷ 128 ∷ 7 ∷ []) 7 4 (omega arith) (omega arith)
      (omega arith) (omega arith)

-- An id of 43 characters, which is the text of 32 zero bytes.
abbrev zero_id : List ℕ
zero_id = replicate 43 b'A'

abbrev home : Home
home = record { provisioned = true; home_id = zero_id; root_pk = replicate 32 0; revocations = [] }

abbrev membership : List (List ℕ) → Membership
membership roles = record {
  version = 1;
  home_id = zero_id;
  device_michi_id = zero_id;
  device_public_key = zero_id;
  device_type = codes "server";
  roles = roles;
  role_count = length roles;
  issued_at = codes "2026-10-04T12:00:00Z";
  serial = 7;
  signature = replicate 86 b'A';
}

abbrev host_roles : List (List ℕ)
host_roles = codes "sync_host" ∷ codes "music_server" ∷ []

abbrev roles_host : List (List ℕ)
roles_host = codes "music_server" ∷ codes "sync_host" ∷ []

membership-IsIssued_host : IsIssued (membership host_roles)
membership-IsIssued_host = record {
  home_len = refl;
  device_len = refl;
  key_len = refl;
  type_plain = omega arith;
  roles_plain = omega arith;
  time_form =
      (codes "2026-10-04T12", codes "00", codes "00Z", omega arith, omega arith, omega arith, refl);
  serial_width = omega arith;
}

membership-IsIssued_server : IsIssued (membership roles_host)
membership-IsIssued_server = record {
  home_len = refl;
  device_len = refl;
  key_len = refl;
  type_plain = omega arith;
  roles_plain = omega arith;
  time_form =
      (codes "2026-10-04T12", codes "00", codes "00Z", omega arith, omega arith, omega arith, refl);
  serial_width = omega arith;
}

-- What the two certificates sign.
abbrev signed_bytes : List ℕ
signed_bytes =
    domain_membership
    ++ (zero_id
        ++ (zero_id ++ (zero_id ++ codes "server:music_server:sync_host:2026-10-04T12:00:00Z:7")))

canonical_membership_bytes-injective_example :
    SameSigned (membership host_roles) (membership roles_host)
unfolding canonical_membership_bytes membership_parts append_all sort_roles insert_role strcmp_le
    with_colon print_nat
canonical_membership_bytes-injective_example =
    canonical_membership_bytes-injective (membership host_roles) (membership roles_host) 512 400
      signed_bytes membership-IsIssued_host membership-IsIssued_server refl refl

verify_membership-shifted_example :
    verify_membership crypto home
      (with_type
        (codes "server" ++ b':' ∷ codes "library_master")
        (codes "sync_client" ∷ [])
        (membership []))
      (replicate 32 0)
    ≡ verify_membership crypto home
        (with_type
          (codes "server")
          (codes "library_master" ∷ codes "sync_client" ∷ [])
          (membership []))
        (replicate 32 0)
unfolding sort_roles insert_role strcmp_le
verify_membership-shifted_example =
    verify_membership-shifted (membership []) (codes "server") (codes "library_master")
      (codes "sync_client" ∷ []) (omega arith) refl crypto home (replicate 32 0)

abbrev revocation : Revocation
revocation = record {
  version = 1;
  home_id = zero_id;
  revoked_device_michi_id = zero_id;
  revoked_at = codes "2026-10-05T09:30:00Z";
  reason = codes "lost";
  signature = replicate 86 b'A';
}

add_revocation-Revokes_example :
    Revokes crypto EspErr.ok revocation home (add_revocation crypto EspErr.ok revocation home)
add_revocation-Revokes_example =
    add_revocation-Revokes crypto EspErr.ok revocation home (omega arith)

-- A client asks for a challenge, answers it, and uses its token.
abbrev client : Client
client = record { michi_id = zero_id; pk = zero_id; home_id = zero_id }

abbrev challenge_id : List ℕ
challenge_id = codes "00010203-0405-4607-8809-0a0b0c0d0e0f"

abbrev answer : Answer
answer = record {
  challenge_id = challenge_id;
  client_michi_id = zero_id;
  membership = membership host_roles;
  signature_b64 = replicate 86 b'A';
}

abbrev calls : List AuthCall
calls =
    validate_call 4000000 zero_id 2
    ∷ finish_call 3000000 0
    ∷ begin_call 2000000 (replicate 32 0) answer
    ∷ create_call 1000000 (λ i. i) (replicate 16 0) client
    ∷ []

-- The client has a session, with the permissions of a music server and a sync host.
calls_open : (auth_run crypto (some zero_id) home calls).sessions_given ≡ 1
unfolding find_index auth_run auth_step prepare attempt begin_session check_answer consume
    finish_session fresh_session session_slot sign_token validate_in validate_token_perm finish_step
    remove_at fresh_challenge issue_challenge mint_challenge create_challenge hex_bytes mint_uuid_v4
    purge_challenge purge_session purge_expired reset role_permissions role_perms
    canonical_membership_bytes checks device_auth_payload get_root_public_key is_device_revoked
    membership_parts server_auth_payload verify_device_auth verify_membership get_id id_derives
    decodes_to append_all insert_role print_nat sort_roles strcmp_le with_colon base64url_decode
    decode_from base64url_value derive_michi_id base64url_encode b64url_encode b64_char hex
    hex_digit str_eq
calls_open = refl

sessions-Granted_example :
    All
      (Granted crypto (some zero_id) home calls)
      (auth_run crypto (some zero_id) home calls).auth.sessions
sessions-Granted_example = sessions-Granted crypto (some zero_id) home calls

sessions-le-challenges_example :
    let w = auth_run crypto (some zero_id) home calls in w.sessions_given ≤ w.challenges_given
sessions-le-challenges_example = sessions-le-challenges crypto (some zero_id) home calls

sessions_of-le_one_example :
    sessions_of zero_id (auth_run crypto (some zero_id) home calls).auth.sessions ≤ 1
sessions_of-le_one_example = sessions_of-le_one crypto (some zero_id) home calls zero_id

-- A challenge of another client, in the first slot.
abbrev held : Challenge
held = record {
  active = true;
  challenge_id = challenge_id;
  nonce = replicate 22 b'A';
  client_michi_id = replicate 43 b'B';
  client_pk = replicate 43 b'B';
  home_id = zero_id;
  expires_mono_us = 61000000;
}

-- The client's session.
abbrev session : AuthSession
session = record {
  active = true;
  session_token = zero_id;
  client_michi_id = zero_id;
  permissions = 15;
  expires_mono_us = 3602000000;
}

abbrev tables : Auth
tables = record { challenges = held ∷ held ∷ []; sessions = session ∷ [] }

create_challenge-keeps_example :
    get_elem?
      (create_challenge crypto home 2000000 (λ i. i) (replicate 16 0) client tables).2.challenges
      0
    ≡ some held
create_challenge-keeps_example =
    create_challenge-keeps 2000000 0 held refl (omega arith) crypto home (λ i. i) (replicate 16 0)
      client tables refl

use_token-revoked_example :
    (is_device_revoked zero_id (add_revocation crypto EspErr.ok revocation home).2.revocations
      ≡ true)
    × All (λ err. err ≡ EspErr.ok) (use_token zero_id 2 (3601000000 ∷ 7200000000 ∷ []) tables)
unfolding add_revocation verify_revocation canonical_revocation_bytes replace_revocation checks
    decodes_to append_all base64url_decode decode_from base64url_value derive_michi_id
    base64url_encode str_eq is_device_revoked holds
use_token-revoked_example =
    use_token-revoked crypto EspErr.ok revocation home tables zero_id 2 3602000000
      (3601000000 ∷ 7200000000 ∷ []) (omega arith) refl refl (omega arith)

-- The role that the type hides permits firmware updates.
shifted_permits : role_permissions 0 (codes "library_master" ∷ codes "sync_client" ∷ []) ≡ 0x29
unfolding role_permissions role_perms str_eq
shifted_permits = refl

-- The client's verification against the challenge that it was given, and what it brings to the
-- second section.
abbrev issued_tables : Auth
issued_tables =
    (auth_run crypto (some zero_id) home
      (create_call 1000000 (λ i. i) (replicate 16 0) client ∷ [])).auth

abbrev attempt_of_client : Attempt
attempt_of_client = record {
  slot = 0;
  challenge_id = challenge_id;
  client_michi_id = zero_id;
  perms = 15;
  token = zero_id;
  server_sig = replicate 86 b'A';
}

validate-verify_and_create_session_example :
    let (err, reply, a') =
      verify_and_create_session crypto home
        (some zero_id)
        2000000
        3000000
        (replicate 32 0)
        (λ a. a)
        answer
        issued_tables in
    let (accepted, id, a'') = validate_token_perm 3000000000 zero_id 8 a' in
    (reply ≡ some (zero_id, replicate 86 b'A', 3600)) × (accepted ≡ EspErr.ok) × (id ≡ some zero_id)
unfolding find_index auth_run bearers count_if verify_and_create_session auth_step prepare attempt
    begin_session check_answer consume finish_session fresh_session session_slot sign_token
    validate_in validate_token_perm finish_step remove_at fresh_challenge issue_challenge
    mint_challenge create_challenge hex_bytes mint_uuid_v4 purge_challenge purge_session
    purge_expired reset role_permissions role_perms canonical_membership_bytes checks
    device_auth_payload get_root_public_key is_device_revoked membership_parts server_auth_payload
    verify_device_auth verify_membership get_id id_derives decodes_to append_all insert_role
    print_nat sort_roles strcmp_le with_colon base64url_decode decode_from base64url_value
    derive_michi_id base64url_encode b64url_encode b64_char hex hex_digit str_eq
validate-verify_and_create_session_example =
    validate-verify_and_create_session crypto home (some zero_id) 2000000 3000000 (replicate 32 0)
      (λ a. a) answer issued_tables attempt_of_client refl refl 3000000000 8 refl refl (omega arith)
