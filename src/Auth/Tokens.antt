-- ===== src/Auth/Tokens.antt =====
-- What ends a bearer token, and what does not: the certificates' revocations.
use michi_music_stream.Prelude.{
  ℕ, ◌+◌, ◌*◌, ◌≤◌, ◌<◌, ◌≡◌, ◌∙◌, Bool, true, false, ◌&&◌, ◌||◌, List, [], ◌∷◌, map, leb,
  if◌then◌else◌, ◌==◌, str_eq, str_eq_refl, str_eq_sound, some, length, EspErr, arith, inl, inr,
  All,
}
use Prim.Native.Nat.{bit_and}
use michi_music_stream.Identity.{Crypto}
use michi_music_stream.Home.{Home, Revocation, add_revocation, is_device_revoked, max_revocations}
use michi_music_stream.Home.Revoked.{add_revocation-Revokes}
use michi_music_stream.Auth.Table.{AuthSession, Auth, purge_session, purge_expired, session_ttl_sec}
use michi_music_stream.Auth.Handlers.{validate_in, validate_token_perm}

abbrev pub has_token : List ℕ → AuthSession → Bool
has_token token s = s.active && str_eq s.session_token token

abbrev pub permits : ℕ → AuthSession → Bool
permits perm s = perm == 0 || bit_and s.permissions perm == perm

-- The first active session of the token has the permission, and is that of the client and valid
-- before the time `until`.
unfoldable pub holds : List ℕ → ℕ → List ℕ → ℕ → List AuthSession → Bool
holds token perm client until [] = false
holds token perm client until (s ∷ ss) =
    if has_token token s
    then leb until s.expires_mono_us && (permits perm s && str_eq s.client_michi_id client)
    else holds token perm client until ss

-- Time passes until the token is used.
holds-purge :
    (token : List ℕ) (perm : ℕ) (client : List ℕ) (until now : ℕ) (ss : List AuthSession)
    → now < until
    → holds token perm client until ss ≡ true
    → holds token perm client until (map (purge_session now) ss) ≡ true
unfolding holds purge_session
holds-purge token perm client until now [] l h = h
holds-purge token perm client until now (s ∷ ss) l h =
    ground (arith, holds-purge token perm client until now ss l)

validate_in-holds :
    (token : List ℕ) (perm : ℕ) (client : List ℕ) (until now : ℕ) (ss : List AuthSession)
    → holds token perm client until ss ≡ true
    → let (err, id, ss') = validate_in now token perm ss in
      (err ≡ EspErr.ok)
      × (id ≡ some client)
      × (holds token perm client (now + session_ttl_sec * 1000000) ss' ≡ true)
unfolding holds validate_in
validate_in-holds token perm client until now [] h = cc
validate_in-holds token perm client until now (s ∷ ss) h =
    ground (
      arith,
      validate_in-holds token perm client until now ss,
      str_eq_sound s.client_michi_id client,
    )

pub validate-holds :
    (token : List ℕ) (perm : ℕ) (client : List ℕ) (until now : ℕ) (a : Auth)
    → now < until
    → holds token perm client until a.sessions ≡ true
    → let (err, id, a') = validate_token_perm now token perm a in
      (err ≡ EspErr.ok)
      × (id ≡ some client)
      × (holds token perm client (now + session_ttl_sec * 1000000) a'.sessions ≡ true)
unfolding validate_token_perm purge_expired
validate-holds token perm client until now a l h =
    validate_in-holds token perm client until now (map (purge_session now) a.sessions)
      (holds-purge token perm client until now a.sessions l h)

-- The answers to uses of one token at the times listed.
unfoldable pub use_token : List ℕ → ℕ → List ℕ → Auth → List EspErr
use_token token perm [] a = []
use_token token perm (now ∷ times) a =
    let (err, id, a') = validate_token_perm now token perm a in err ∷ use_token token perm times a'

-- Each use comes before the session expires, which the use before has moved.
abbrev pub InTime : ℕ → List ℕ → Type 0
InTime until [] = Unit
InTime until (now ∷ times) = (now < until) × InTime (now + session_ttl_sec * 1000000) times

use_token-accepted :
    (token : List ℕ) (perm : ℕ) (client : List ℕ) (until : ℕ) (times : List ℕ) (a : Auth)
    → InTime until times
    → holds token perm client until a.sessions ≡ true
    → All (λ err. err ≡ EspErr.ok) (use_token token perm times a)
unfolding use_token
use_token-accepted token perm client until [] a i h = tt
use_token-accepted token perm client until (now ∷ times) a i h =
    let (accepted, _, kept) = validate-holds token perm client until now a i.0 h in
    (
      accepted,
      use_token-accepted token perm client (now + session_ttl_sec * 1000000) times
          (validate_token_perm now token perm a).2 i.1 kept,
    )

-- A revocation that is stored does not end the device's session. After `michi_home_add_revocation`
-- has answered ESP_OK for a device, the device is revoked, and yet a token of its session is accepted
-- at every later use, for as long as each use comes within the session's life, which the use before
-- has renewed.
pub use_token-revoked :
    (crypto : Crypto) (stored : EspErr) (r : Revocation) (home : Home) (a : Auth) (token : List ℕ)
    (perm until : ℕ) (times : List ℕ)
    → length home.revocations ≤ max_revocations
    → (add_revocation crypto stored r home).0 ≡ EspErr.ok
    → holds token perm r.revoked_device_michi_id until a.sessions ≡ true
    → InTime until times
    → (is_device_revoked r.revoked_device_michi_id
          (add_revocation crypto stored r home).2.revocations
        ≡ true)
      × All (λ err. err ≡ EspErr.ok) (use_token token perm times a)
use_token-revoked crypto stored r home a token perm until times l e h i = (
  elim (add_revocation-Revokes crypto stored r home l) [
    | inl (_, _, _, _, _, (exact, _)) ↦
        exact r.revoked_device_michi_id ∙ ground (arith, str_eq_refl r.revoked_device_michi_id)
    | inr (failed, _, _) ↦ absurd (ground arith)
  ],
  use_token-accepted token perm r.revoked_device_michi_id until times a i h,
)
