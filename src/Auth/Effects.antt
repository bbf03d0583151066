-- ===== src/Auth/Effects.antt =====
-- Which part of the tables each call of michi_auth.c can change.
use michi_music_stream.Prelude.{
  ℕ, zero, suc, ◌≡◌, refl, sym, subst, not, ◌&&◌, Option, none, some, List, [], ◌∷◌, map, str_eq,
  EspErr, arith, if-both, Option-cases, inl, inr, All,
}
use michi_music_stream.Identity.{Crypto}
use michi_music_stream.Home.{Home, get_id, id_derives}
use michi_music_stream.Auth.Slots.{find_index}
use michi_music_stream.Auth.Table.{AuthSession, Auth, purge_challenge, purge_session, purge_expired}
use michi_music_stream.Auth.Requests.{
  Client, Issue, is_challenge_of, is_free_challenge, create_challenge, issue_challenge,
  mint_challenge, is_challenge,
}
use michi_music_stream.Auth.Handlers.{Answer, Attempt, begin_session, prepare}
use michi_music_stream.Auth.Histories.{AuthWorld, remove_at, with_attempt}

pub issue_challenge-sessions :
    (now : ℕ) (raw : ℕ → ℕ) (nonce_raw : List ℕ) (client : Client) (a : Auth)
    → (issue_challenge now raw nonce_raw client a).2.sessions ≡ a.sessions
unfolding issue_challenge mint_challenge
issue_challenge-sessions now raw nonce_raw client a =
    elim (Option-cases (find_index (is_challenge_of client.michi_id) a.challenges)) [
      | inr (slot, e) ↦ rw (e, issue_challenge) (ground arith)
      | inl e ↦
          rw (e, issue_challenge)
            (elim (Option-cases (find_index is_free_challenge a.challenges)) [
              | inl e' ↦ rw e' (refl)
              | inr (slot, e') ↦ rw e' (ground arith)
            ])
    ]

pub prepare-sessions :
    (crypto : Crypto) (server : Option (List ℕ)) (w : AuthWorld) (now : ℕ) (token_raw : List ℕ)
    (ans : Answer)
    → (prepare crypto w.home server now token_raw ans w.auth).2.sessions
      ≡ map (purge_session now) w.auth.sessions
unfolding prepare begin_session purge_expired
prepare-sessions crypto server w now token_raw ans =
    elim (Option-cases
      (find_index (is_challenge ans.challenge_id) (map (purge_challenge now) w.auth.challenges))) [
        | inl e ↦ rw (e, begin_session)
        | inr (slot, e) ↦ rw (e, begin_session)
      ]

-- A request for a challenge at most purges the sessions.
pub create_challenge-sessions {ℓ} :
    (P : List AuthSession → Type ℓ) (crypto : Crypto) (home : Home) (now : ℕ) (raw : ℕ → ℕ)
    (nonce_raw : List ℕ) (client : Client) (a : Auth)
    → P a.sessions
    → P (map (purge_session now) a.sessions)
    → P (create_challenge crypto home now raw nonce_raw client a).2.sessions
unfolding create_challenge purge_expired
create_challenge-sessions P crypto home now raw nonce_raw client a h k =
    let Q = λ (r : EspErr × Option Issue × Auth). P r.2.sessions in
    if-both Q (home.provisioned && not (str_eq (get_id home).1 client.home_id)) h (
      if-both Q (not (id_derives crypto client.pk client.michi_id)) h
        (subst P (sym (issue_challenge-sessions now raw nonce_raw client (purge_expired now a))) k))

pub All-remove_at {ℓ κ} :
    {A : Type ℓ} (P : A → Type κ) (xs : List A) (i : ℕ) → All P xs → All P (remove_at i xs)
unfolding remove_at
All-remove_at P [] i h = h
All-remove_at P (x ∷ xs) zero h = h.1
All-remove_at P (x ∷ xs) (suc i) h = (h.0, All-remove_at P xs i h.1)

-- Beginning a verification only purges the challenges.
pub prepare-challenges :
    (crypto : Crypto) (server : Option (List ℕ)) (w : AuthWorld) (now : ℕ) (token_raw : List ℕ)
    (ans : Answer)
    → (prepare crypto w.home server now token_raw ans w.auth).2.challenges
      ≡ map (purge_challenge now) w.auth.challenges
unfolding prepare begin_session purge_expired
prepare-challenges crypto server w now token_raw ans =
    elim (Option-cases
      (find_index (is_challenge ans.challenge_id) (map (purge_challenge now) w.auth.challenges))) [
        | inl e ↦ rw (e, begin_session)
        | inr (slot, e) ↦ rw (e, begin_session)
      ]

-- Beginning a verification keeps what the purges keep, and adds the attempt that it prepares.
pub attempts-prepare {ℓ} :
    (P : Attempt → Type ℓ) (o : Option Attempt) (ts : List Attempt)
    → ((t : Attempt) → o ≡ some t → P t)
    → All P ts
    → All P (with_attempt o ts)
attempts-prepare P none ts f h = h
attempts-prepare P (some t) ts f h = (f t refl, h)
