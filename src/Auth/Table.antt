-- ===== src/Auth/Table.antt =====
-- The entries of the two tables of michi_auth.c, its constants, and what all its calls do first.
use michi_music_stream.Prelude.{
  ℕ, ◌+◌, Bool, false, ◌&&◌, ◌||◌, List, [], ◌∷◌, ◌++◌, map, leb, ◌%◌, if◌then◌else◌, str_eq, codes,
  replicate,
}
use michi_music_stream.Session.Text.{hex}
use Prim.Native.Nat.{bit_or}

-- `auth_challenge_entry_t` and `auth_session_entry_t`.
pub record Challenge : Type 0 where
  pub active : Bool
  pub challenge_id : List ℕ
  pub nonce : List ℕ
  pub client_michi_id : List ℕ
  pub client_pk : List ℕ
  pub home_id : List ℕ
  pub expires_mono_us : ℕ

pub record AuthSession : Type 0 where
  pub active : Bool
  pub session_token : List ℕ
  pub client_michi_id : List ℕ
  pub permissions : ℕ
  pub expires_mono_us : ℕ

-- `s_challenges` and `s_sessions`.
pub record Auth : Type 0 where
  pub challenges : List Challenge
  pub sessions : List AuthSession

-- MAX_ACTIVE_CHALLENGES, MAX_ACTIVE_SESSIONS, MICHI_AUTH_CHALLENGE_TTL_SEC and
-- MICHI_AUTH_SESSION_TTL_SEC, and the MICHI_PERM flags.
abbrev pub max_active_challenges : ℕ
max_active_challenges = 16

abbrev pub max_active_sessions : ℕ
max_active_sessions = 8

abbrev pub challenge_ttl_sec : ℕ
challenge_ttl_sec = 60

abbrev pub session_ttl_sec : ℕ
session_ttl_sec = 3600

abbrev pub perm_status : ℕ
perm_status = 0x01

abbrev pub perm_playback : ℕ
perm_playback = 0x02

abbrev pub perm_volume : ℕ
perm_volume = 0x04

abbrev pub perm_settings : ℕ
perm_settings = 0x08

abbrev pub perm_ota : ℕ
perm_ota = 0x20

abbrev pub empty_challenge : Challenge
empty_challenge = record {
  active = false;
  challenge_id = [];
  nonce = [];
  client_michi_id = [];
  client_pk = [];
  home_id = [];
  expires_mono_us = 0;
}

abbrev pub empty_session : AuthSession
empty_session = record {
  active = false;
  session_token = [];
  client_michi_id = [];
  permissions = 0;
  expires_mono_us = 0;
}

-- `michi_auth_reset`.
unfoldable pub reset : Auth
reset = record {
  challenges = replicate max_active_challenges empty_challenge;
  sessions = replicate max_active_sessions empty_session;
}

-- `purge_expired_locked`.
unfoldable pub purge_challenge : ℕ → Challenge → Challenge
purge_challenge now c =
    if c.active && leb c.expires_mono_us now then record c { active = false } else c

unfoldable pub purge_session : ℕ → AuthSession → AuthSession
purge_session now s =
    if s.active && leb s.expires_mono_us now then record s { active = false } else s

unfoldable pub purge_expired : ℕ → Auth → Auth
purge_expired now a = record {
  challenges = map (purge_challenge now) a.challenges;
  sessions = map (purge_session now) a.sessions;
}

-- `mint_uuid_v4`, on its 16 random bytes.
unfoldable pub hex_bytes : List ℕ → List ℕ
hex_bytes [] = []
hex_bytes (b ∷ bs) = hex 2 b ++ hex_bytes bs

unfoldable pub mint_uuid_v4 : (ℕ → ℕ) → List ℕ
unfolding hex_bytes
mint_uuid_v4 b =
    hex_bytes (b 0 ∷ b 1 ∷ b 2 ∷ b 3 ∷ [])
    ++ (b'-' ∷ hex_bytes (b 4 ∷ b 5 ∷ []))
    ++ (b'-' ∷ hex_bytes ((b 6 % 16 + 0x40) ∷ b 7 ∷ []))
    ++ (b'-' ∷ hex_bytes ((b 8 % 64 + 0x80) ∷ b 9 ∷ []))
    ++ (b'-' ∷ hex_bytes (b 10 ∷ b 11 ∷ b 12 ∷ b 13 ∷ b 14 ∷ b 15 ∷ []))

-- What one role grants.
unfoldable pub role_perms : List ℕ → ℕ
role_perms role =
    if str_eq role (codes "music_server") || str_eq role (codes "remote_controller")
    then bit_or (bit_or (bit_or perm_status perm_playback) perm_volume) perm_settings
    else if str_eq role (codes "playback_host")
        || str_eq role (codes "desktop_player")
        || str_eq role (codes "mobile_player")
    then bit_or (bit_or perm_status perm_playback) perm_volume
    else if str_eq role (codes "sync_host")
    then bit_or perm_status perm_playback
    else if str_eq role (codes "library_master")
    then bit_or (bit_or perm_status perm_settings) perm_ota
    else if str_eq role (codes "sync_client")
        || str_eq role (codes "library_host")
        || str_eq role (codes "audio_receiver")
    then perm_status
    else 0

-- The loop over the roles; `perms` is what is granted so far.
unfoldable pub role_permissions : ℕ → List (List ℕ) → ℕ
role_permissions perms [] = perms
role_permissions perms (r ∷ rs) = role_permissions (bit_or perms (role_perms r)) rs
