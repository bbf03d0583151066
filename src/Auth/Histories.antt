-- ===== src/Auth/Histories.antt =====
-- Any order of the calls of michi_auth.c, and of the calls of michi_home.c that change what they
-- read. A verification is two calls here, its first section with the checks and its second section,
-- so that any others can come between. A history has its latest call first.
use michi_music_stream.Prelude.{
  ℕ, zero, suc, ◌+◌, Option, none, some, List, [], ◌∷◌, if◌then◌else◌, EspErr, is_ok, get_elem?,
}
use michi_music_stream.Identity.{Crypto}
use michi_music_stream.Home.{Home, Revocation, add_revocation, set_credentials, erase}
use michi_music_stream.Auth.Table.{Auth, reset}
use michi_music_stream.Auth.Requests.{Client, create_challenge}
use michi_music_stream.Auth.Handlers.{Answer, Attempt, prepare, finish_session, validate_token_perm}

pub data AuthCall : Type 0 where
  create_call : ℕ → (ℕ → ℕ) → List ℕ → Client → AuthCall
  begin_call : ℕ → List ℕ → Answer → AuthCall
  finish_call : ℕ → ℕ → AuthCall
  validate_call : ℕ → List ℕ → ℕ → AuthCall
  reset_call : AuthCall
  revoke_call : EspErr → Revocation → AuthCall
  link_call : EspErr → List ℕ → List ℕ → AuthCall
  erase_call : AuthCall

-- The tables, the home, and the verifications that are between their two sections; how many calls
-- have been answered with a challenge, and how many with a session.
pub record AuthWorld : Type 0 where
  pub auth : Auth
  pub home : Home
  pub attempts : List Attempt
  pub challenges_given : ℕ
  pub sessions_given : ℕ

abbrev pub auth_start : Home → AuthWorld
auth_start home = record {
  auth = reset;
  home = home;
  attempts = [];
  challenges_given = 0;
  sessions_given = 0;
}

module _ {ℓ} {A : Type ℓ} where
  unfoldable pub remove_at : ℕ → List A → List A
  remove_at i [] = []
  remove_at zero (x ∷ xs) = xs
  remove_at (suc i) (x ∷ xs) = x ∷ remove_at i xs

abbrev pub with_attempt : Option Attempt → List Attempt → List Attempt
with_attempt none ts = ts
with_attempt (some t) ts = t ∷ ts

abbrev pub one_more : EspErr → ℕ → ℕ
one_more err n = if is_ok err then n + 1 else n

module _ (crypto : Crypto) (server : Option (List ℕ)) where
  unfoldable pub finish_step : ℕ → ℕ → Option Attempt → AuthWorld → AuthWorld
  finish_step now i none w = w
  finish_step now i (some t) w =
      let (err, a) = finish_session now t w.auth in
      record w {
        auth = a;
        attempts = remove_at i w.attempts;
        sessions_given = one_more err w.sessions_given;
      }

  unfoldable pub auth_step : AuthCall → AuthWorld → AuthWorld
  unfolding finish_step
  auth_step (create_call now raw nonce_raw client) w =
      let (err, issue, a) = create_challenge crypto w.home now raw nonce_raw client w.auth in
      record w { auth = a; challenges_given = one_more err w.challenges_given }
  auth_step (begin_call now token_raw ans) w =
      let (err, t, a) = prepare crypto w.home server now token_raw ans w.auth in
      record w { auth = a; attempts = with_attempt t w.attempts }
  auth_step (finish_call now i) w = finish_step now i (get_elem? w.attempts i) w
  auth_step (validate_call now token perm) w = record w {
    auth = (validate_token_perm now token perm w.auth).2;
  }
  auth_step reset_call w = record w { auth = reset }
  auth_step (revoke_call stored r) w = record w { home = (add_revocation crypto stored r w.home).2 }
  auth_step (link_call stored id pk) w = record w { home = (set_credentials stored id pk w.home).1 }
  auth_step erase_call w = record w { home = erase w.home }

  unfoldable pub auth_run : Home → List AuthCall → AuthWorld
  auth_run home [] = auth_start home
  auth_run home (c ∷ cs) = auth_step c (auth_run home cs)
