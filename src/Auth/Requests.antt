-- ===== src/Auth/Requests.antt =====
-- Requests for a challenge in michi_auth.c, and the tests by which its loops look for a slot.
use michi_music_stream.Prelude.{
  ℕ, ◌+◌, ◌-◌, ◌*◌, ◌/◌, ◌%◌, ◌^◌, Bool, true, not, ◌&&◌, Option, none, some, List, ltb,
  if◌then◌else◌, str_eq, take, get_or, set, EspErr, is_ok,
}
use michi_music_stream.Identity.{Crypto, base64url_encode}
use michi_music_stream.Home.{Home, get_id, id_derives}
use michi_music_stream.Auth.Slots.{find_index}
use michi_music_stream.Auth.Table.{
  Challenge, AuthSession, Auth, challenge_ttl_sec, empty_challenge, purge_expired, mint_uuid_v4,
}

-- The tests of the loops that look for a slot.
abbrev pub is_challenge_of : List ℕ → Challenge → Bool
is_challenge_of client c = c.active && str_eq c.client_michi_id client

abbrev pub is_challenge : List ℕ → Challenge → Bool
is_challenge id c = c.active && str_eq c.challenge_id id

abbrev pub is_free_challenge : Challenge → Bool
is_free_challenge c = not c.active

abbrev pub is_session_of : List ℕ → AuthSession → Bool
is_session_of client s = s.active && str_eq s.client_michi_id client

abbrev pub is_free_session : AuthSession → Bool
is_free_session s = not s.active

-- What `michi_auth_create_challenge` hands out: the challenge's id, its nonce and its time left.
pub record Issue : Type 0 where
  pub challenge_id : List ℕ
  pub nonce : List ℕ
  pub expires_in : ℕ

-- The client of a request for a challenge.
pub record Client : Type 0 where
  pub michi_id : List ℕ
  pub pk : List ℕ
  pub home_id : List ℕ

-- The challenge that is written into a slot; `raw` gives the 16 bytes of its id.
unfoldable pub fresh_challenge : ℕ → (ℕ → ℕ) → List ℕ → Client → Challenge
fresh_challenge now raw nonce client = record {
  active = true;
  challenge_id = take 36 (mint_uuid_v4 raw);
  nonce = take 22 nonce;
  client_michi_id = take 43 client.michi_id;
  client_pk = take 43 client.pk;
  home_id = take 43 client.home_id;
  expires_mono_us = now + challenge_ttl_sec * 1000000;
}

-- The end of the call, with a slot and the 16 random bytes of the nonce.
unfoldable pub mint_challenge :
    ℕ → (ℕ → ℕ) → List ℕ → Client → ℕ → Auth → EspErr × Option Issue × Auth
mint_challenge now raw nonce_raw client slot a =
    let (err, nonce) = base64url_encode nonce_raw 23 in
    if not (is_ok err) then (EspErr.fail, none, a) else (
      EspErr.ok,
      some (record {
        challenge_id = mint_uuid_v4 raw;
        nonce = nonce;
        expires_in = challenge_ttl_sec;
      }),
      record a { challenges = set a.challenges slot (fresh_challenge now raw nonce client) },
    )

-- The part under the lock, after the purge.
unfoldable pub issue_challenge : ℕ → (ℕ → ℕ) → List ℕ → Client → Auth → EspErr × Option Issue × Auth
unfolding mint_challenge
issue_challenge now raw nonce_raw client a =
    elim (find_index (is_challenge_of client.michi_id) a.challenges) [
      | some slot ↦
          (let c = get_or a.challenges slot empty_challenge in
            let rem_sec = (c.expires_mono_us - now) / 1000000 % 2 ^ 32 in
            if ltb now c.expires_mono_us
            then (
              EspErr.ok,
              some (record {
                challenge_id = c.challenge_id;
                nonce = c.nonce;
                expires_in = if ltb 0 rem_sec then rem_sec else 1;
              }),
              a,
            )
            else mint_challenge now raw nonce_raw client slot a)
      | none ↦ elim (find_index is_free_challenge a.challenges) [
        | some slot ↦ mint_challenge now raw nonce_raw client slot a
        | none ↦ (EspErr.no_mem, none, a)
      ]
    ]

-- `michi_auth_create_challenge`.
unfoldable pub create_challenge :
    Crypto → Home → ℕ → (ℕ → ℕ) → List ℕ → Client → Auth → EspErr × Option Issue × Auth
unfolding issue_challenge
create_challenge crypto home now raw nonce_raw client a =
    if home.provisioned && not (str_eq (get_id home).1 client.home_id)
    then (EspErr.not_allowed, none, a)
    else if not (id_derives crypto client.pk client.michi_id)
    then (EspErr.invalid_arg, none, a)
    else issue_challenge now raw nonce_raw client (purge_expired now a)
