-- ===== src/Auth/Handlers.antt =====
-- Opening a session and checking a token in michi_auth.c.
use michi_music_stream.Prelude.{
  ℕ, ◌+◌, ◌*◌, true, false, not, ◌&&◌, ◌||◌, Option, none, some, List, [], ◌∷◌, if◌then◌else◌, ◌==◌,
  str_eq, take, get_or, set, EspErr, is_ok,
}
use Prim.Native.Nat.{bit_and}
use michi_music_stream.Identity.{Crypto, base64url_encode, base64url_decode}
use michi_music_stream.Home.{
  Home, Membership, key_bytes, sig_bytes, get_root_public_key, decodes_to, verify_membership,
  is_device_revoked, verify_device_auth, server_auth_payload,
}
use michi_music_stream.Auth.Slots.{find_index}
use michi_music_stream.Auth.Table.{
  Challenge, AuthSession, Auth, session_ttl_sec, empty_challenge, purge_expired, role_permissions,
}
use michi_music_stream.Auth.Requests.{is_challenge, is_session_of, is_free_session}

-- The first locked section of `michi_auth_verify_and_create_session`: the slot and a copy of the
-- challenge, which stays active.
unfoldable pub begin_session : ℕ → List ℕ → Auth → Option (ℕ × Challenge) × Auth
begin_session now challenge_id a =
    let purged = purge_expired now a in
    elim (find_index (is_challenge challenge_id) purged.challenges) [
      | none ↦ (none, purged)
      | some slot ↦ (some (slot, get_or purged.challenges slot empty_challenge), purged)
    ]

-- What a client sends to open a session.
pub record Answer : Type 0 where
  pub challenge_id : List ℕ
  pub client_michi_id : List ℕ
  pub membership : Membership
  pub signature_b64 : List ℕ

-- The checks between the two sections: the status, and the permissions of the roles.
unfoldable pub check_answer : Crypto → Home → Option (List ℕ) → Challenge → Answer → EspErr × ℕ
check_answer crypto home server ch ans =
    let m = ans.membership in
    let client = ans.client_michi_id in
    let (rooted, root_pk) = get_root_public_key home in
    let perms = role_permissions 0 (take m.role_count m.roles) in
    if not (str_eq ch.client_michi_id client)
      || not (str_eq ch.client_michi_id m.device_michi_id)
      || not (str_eq ch.home_id m.home_id)
    then (EspErr.invalid_arg, 0)
    else if not (is_ok rooted)
    then (EspErr.invalid_state, 0)
    else if not (verify_membership crypto home m root_pk)
    then (EspErr.invalid_response, 0)
    else if is_device_revoked client home.revocations
    then (EspErr.invalid_response, 0)
    else if perms == 0
    then (EspErr.invalid_arg, 0)
    else if not (decodes_to key_bytes m.device_public_key)
    then (EspErr.invalid_arg, 0)
    else if not (decodes_to sig_bytes ans.signature_b64)
    then (EspErr.invalid_arg, 0)
    else elim server [
      | none ↦ (EspErr.fail, 0)
      | some id ↦
          if verify_device_auth crypto ch.home_id id client ch.challenge_id ch.nonce
            (base64url_decode ans.signature_b64 sig_bytes).1
            (base64url_decode m.device_public_key key_bytes).1
          then (EspErr.ok, perms)
          else (EspErr.invalid_response, 0)
    ]

-- The token, minted from 32 random bytes, and the server's signature over it; `none` is ESP_FAIL.
unfoldable pub sign_token :
    Crypto → Option (List ℕ) → Challenge → List ℕ → List ℕ → Option (List ℕ × List ℕ)
sign_token crypto none ch client token_raw = none
sign_token crypto (some server) ch client token_raw =
    let (err, token) = base64url_encode token_raw 44 in
    if not (is_ok err)
    then none
    else elim (server_auth_payload ch.home_id server client ch.challenge_id token) [
      | none ↦ none
      | some payload ↦
          (let (err', sig) = base64url_encode (crypto.ed25519_sign payload) 87 in
            if is_ok err' then some (token, sig) else none)
    ]

-- What the call carries from the first section to the second.
pub record Attempt : Type 0 where
  pub slot : ℕ
  pub challenge_id : List ℕ
  pub client_michi_id : List ℕ
  pub perms : ℕ
  pub token : List ℕ
  pub server_sig : List ℕ

-- The checks of the challenge that was found, and the token.
unfoldable pub attempt :
    Crypto
    → Home
    → Option (List ℕ)
    → List ℕ
    → Answer
    → Option (ℕ × Challenge)
    → EspErr × Option Attempt
unfolding check_answer sign_token
attempt crypto home server token_raw ans none = (EspErr.not_found, none)
attempt crypto home server token_raw ans (some (slot, ch)) =
    let (err, perms) = check_answer crypto home server ch ans in
    if not (is_ok err)
    then (err, none)
    else elim (sign_token crypto server ch ans.client_michi_id token_raw) [
      | none ↦ (EspErr.fail, none)
      | some (token, sig) ↦ (
        EspErr.ok,
        some (record {
          slot = slot;
          challenge_id = ans.challenge_id;
          client_michi_id = ans.client_michi_id;
          perms = perms;
          token = token;
          server_sig = sig;
        }),
      )
    ]

-- From the request to the second section: an error, or what it is entered with.
unfoldable pub prepare :
    Crypto → Home → Option (List ℕ) → ℕ → List ℕ → Answer → Auth → EspErr × Option Attempt × Auth
unfolding begin_session attempt
prepare crypto home server now token_raw ans a =
    let (found, a') = begin_session now ans.challenge_id a in
    let (err, t) = attempt crypto home server token_raw ans found in (err, t, a')

-- The session that is written into a slot.
unfoldable pub fresh_session : ℕ → Attempt → AuthSession
fresh_session now t = record {
  active = true;
  session_token = take 43 t.token;
  client_michi_id = take 43 t.client_michi_id;
  permissions = t.perms;
  expires_mono_us = now + session_ttl_sec * 1000000;
}

-- The slot of the client's own session, or else a free one.
unfoldable pub session_slot : List ℕ → List AuthSession → Option ℕ
session_slot client sessions = elim (find_index (is_session_of client) sessions) [
  | some slot ↦ some slot
  | none ↦ find_index is_free_session sessions
]

-- The second locked section, after its purge: the challenge is used up, also where no slot is free.
unfoldable pub consume : ℕ → Attempt → Auth → EspErr × Auth
unfolding session_slot
consume now t a =
    let ch = get_or a.challenges t.slot empty_challenge in
    let used = set a.challenges t.slot (record ch { active = false }) in
    if not (is_challenge t.challenge_id ch)
    then (EspErr.not_found, a)
    else elim (session_slot t.client_michi_id a.sessions) [
      | none ↦ (EspErr.no_mem, record a { challenges = used })
      | some slot ↦ (
        EspErr.ok,
        record { challenges = used; sessions = set a.sessions slot (fresh_session now t) },
      )
    ]

unfoldable pub finish_session : ℕ → Attempt → Auth → EspErr × Auth
unfolding consume
finish_session now t a = consume now t (purge_expired now a)

-- `michi_auth_verify_and_create_session`: `others` is what other tasks do between the two sections;
-- the reply is the token, the server's signature and the token's life.
unfoldable pub verify_and_create_session :
    Crypto
    → Home
    → Option (List ℕ)
    → ℕ
    → ℕ
    → List ℕ
    → (Auth → Auth)
    → Answer
    → Auth
    → EspErr × Option (List ℕ × List ℕ × ℕ) × Auth
unfolding prepare finish_session
verify_and_create_session crypto home server now session_now token_raw others ans a =
    let (err, prepared, a') = prepare crypto home server now token_raw ans a in
    elim prepared [
      | none ↦ (err, none, a')
      | some t ↦
          (let (err', a'') = finish_session session_now t (others a') in
            if is_ok err'
            then (EspErr.ok, some (t.token, t.server_sig, session_ttl_sec), a'')
            else (err', none, a''))
    ]

-- The loop of `michi_auth_validate_token_perm`: the status, the client, and the sessions.
unfoldable pub validate_in :
    ℕ → List ℕ → ℕ → List AuthSession → EspErr × Option (List ℕ) × List AuthSession
validate_in now token perm [] = (EspErr.not_found, none, [])
validate_in now token perm (s ∷ ss) =
    let (err, client, ss') = validate_in now token perm ss in
    if s.active && str_eq s.session_token token
    then (if not (perm == 0) && not (bit_and s.permissions perm == perm)
        then (EspErr.invalid_state, none, s ∷ ss)
        else (
          EspErr.ok,
          some s.client_michi_id,
          record s { expires_mono_us = now + session_ttl_sec * 1000000 } ∷ ss,
        ))
    else (err, client, s ∷ ss')

unfoldable pub validate_token_perm : ℕ → List ℕ → ℕ → Auth → EspErr × Option (List ℕ) × Auth
unfolding validate_in
validate_token_perm now token perm a =
    let purged = purge_expired now a in
    let (err, client, sessions) = validate_in now token perm purged.sessions in
    (err, client, record purged { sessions = sessions })
