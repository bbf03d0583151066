-- ===== src/Auth/Counts.antt =====
-- Challenges are used once, and a client has one session, over any history.
use michi_music_stream.Prelude.{
  ℕ, zero, suc, ◌+◌, ◌≤◌, ◌≡◌, refl, true, false, Option, List, [], ◌∷◌, map, get_or, set,
  get_elem?, arith, Option-cases, inl, inr,
}
use michi_music_stream.Identity.{Crypto, base64url_encode}
use michi_music_stream.Home.{Home}
use michi_music_stream.Auth.Slots.{find_index, count_if, count_if-map}
use michi_music_stream.Auth.Table.{
  Challenge, Auth, reset, purge_challenge, purge_expired, empty_challenge,
}
use michi_music_stream.Auth.Requests.{
  Client, fresh_challenge, mint_challenge, issue_challenge, create_challenge, is_challenge_of,
  is_free_challenge,
}
use michi_music_stream.Auth.Handlers.{
  Answer, Attempt, begin_session, prepare, finish_session, consume, validate_token_perm,
}
use michi_music_stream.Auth.Histories.{
  AuthCall, create_call, begin_call, finish_call, validate_call, reset_call, revoke_call, link_call,
  erase_call, AuthWorld, auth_run, auth_step, finish_step, one_more,
}

pub live : List Challenge → ℕ
live cs = count_if (λ (c : Challenge). c.active) cs

live-purge : (now : ℕ) (cs : List Challenge) → live (map (purge_challenge now) cs) ≤ live cs
unfolding live purge_challenge
live-purge now cs = count_if-map _ _ cs (λ (c : Challenge). λ h. ground arith)

-- Writing a slot leaves at most one more live challenge.
live-set : (cs : List Challenge) (i : ℕ) (v : Challenge) → live (set cs i v) ≤ live cs + 1
unfolding live count_if
live-set [] i v = omega arith
live-set (c ∷ cs) zero v = ground arith
live-set (c ∷ cs) (suc i) v = ground (arith, live-set cs i v)

-- Clearing a live slot leaves one less.
live-clear :
    (cs : List Challenge) (i : ℕ) (v : Challenge)
    → (get_or cs i empty_challenge).active ≡ true
    → v.active ≡ false
    → live (set cs i v) + 1 ≡ live cs
unfolding live count_if
live-clear [] i v h k = ground arith
live-clear (c ∷ cs) zero v h k = ground arith
live-clear (c ∷ cs) (suc i) v h k = ground (arith, live-clear cs i v)

mint_challenge-live :
    (now : ℕ) (raw : ℕ → ℕ) (nonce_raw : List ℕ) (client : Client) (slot : ℕ) (a : Auth)
    → let (err, issue, a') = mint_challenge now raw nonce_raw client slot a in
      live a'.challenges ≤ one_more err (live a.challenges)
unfolding mint_challenge
mint_challenge-live now raw nonce_raw client slot a = ground (
  arith,
  live-set a.challenges slot (fresh_challenge now raw (base64url_encode nonce_raw 23).1 client),
)

issue_challenge-live :
    (now : ℕ) (raw : ℕ → ℕ) (nonce_raw : List ℕ) (client : Client) (a : Auth)
    → let (err, issue, a') = issue_challenge now raw nonce_raw client a in
      live a'.challenges ≤ one_more err (live a.challenges)
unfolding issue_challenge
issue_challenge-live now raw nonce_raw client a =
    elim (Option-cases (find_index (is_challenge_of client.michi_id) a.challenges)) [
      | inr (slot, e) ↦
          rw (e, issue_challenge)
            (ground (arith, mint_challenge-live now raw nonce_raw client slot a))
      | inl e ↦
          rw (e, issue_challenge)
            (elim (Option-cases (find_index is_free_challenge a.challenges)) [
              | inl e' ↦ rw e' (omega arith)
              | inr (slot, e') ↦ rw e' (mint_challenge-live now raw nonce_raw client slot a)
            ])
    ]

create_challenge-live :
    (crypto : Crypto) (home : Home) (now : ℕ) (raw : ℕ → ℕ) (nonce_raw : List ℕ) (client : Client)
    (a : Auth)
    → let (err, issue, a') = create_challenge crypto home now raw nonce_raw client a in
      live a'.challenges ≤ one_more err (live a.challenges)
unfolding create_challenge purge_expired
create_challenge-live crypto home now raw nonce_raw client a = ground (
  arith,
  issue_challenge-live now raw nonce_raw client (purge_expired now a),
  live-purge now a.challenges,
)

consume-live :
    (now : ℕ) (t : Attempt) (a : Auth)
    → let (err, a') = consume now t a in one_more err (live a'.challenges) ≤ live a.challenges
unfolding consume
consume-live now t a =
    let ch = get_or a.challenges t.slot empty_challenge in
    ground (arith, live-clear a.challenges t.slot (record ch { active = false }))

finish_session-live :
    (now : ℕ) (t : Attempt) (a : Auth)
    → let (err, a') = finish_session now t a in
      one_more err (live a'.challenges) ≤ live a.challenges
unfolding finish_session purge_expired
finish_session-live now t a =
    ground (arith, consume-live now t (purge_expired now a), live-purge now a.challenges)

prepare-live :
    (crypto : Crypto) (home : Home) (server : Option (List ℕ)) (now : ℕ) (token_raw : List ℕ)
    (ans : Answer) (a : Auth)
    → live (prepare crypto home server now token_raw ans a).2.challenges ≤ live a.challenges
unfolding prepare begin_session purge_expired
prepare-live crypto home server now token_raw ans a = ground (arith, live-purge now a.challenges)

live-reset : live reset.challenges ≡ 0
unfolding live reset count_if
live-reset = refl

module _ (crypto : Crypto) (server : Option (List ℕ)) where
  abbrev Used : AuthWorld → Type 0
  Used w = w.sessions_given + live w.auth.challenges ≤ w.challenges_given

  step-Used : (c : AuthCall) (w : AuthWorld) → Used w → Used (auth_step crypto server c w)
  unfolding auth_step finish_step validate_token_perm purge_expired
  step-Used (create_call now raw nonce_raw client) w h =
      ground (arith, create_challenge-live crypto w.home now raw nonce_raw client w.auth)
  step-Used (begin_call now token_raw ans) w h =
      omega (arith, prepare-live crypto w.home server now token_raw ans w.auth)
  step-Used (finish_call now i) w h = elim (Option-cases (get_elem? w.attempts i)) [
    | inl e ↦ rw e h
    | inr (t, e) ↦ rw e (ground (arith, finish_session-live now t w.auth))
  ]
  step-Used (validate_call now token perm) w h = omega (arith, live-purge now w.auth.challenges)
  step-Used reset_call w h = omega (arith, live-reset)
  step-Used (revoke_call stored r) w h = h
  step-Used (link_call stored id pk) w h = h
  step-Used erase_call w h = h

  run-Used : (home : Home) (cs : List AuthCall) → Used (auth_run crypto server home cs)
  unfolding auth_run
  run-Used home [] = omega (arith, live-reset)
  run-Used home (c ∷ cs) = step-Used c (auth_run crypto server home cs) (run-Used home cs)

  -- Challenges are used once: whatever calls are made, in any order, and however the verifications
  -- interleave, no more verifications open a session than calls were answered with a challenge.
  pub sessions-le-challenges :
      (home : Home) (cs : List AuthCall)
      → let w = auth_run crypto server home cs in w.sessions_given ≤ w.challenges_given
  sessions-le-challenges home cs = omega (arith, run-Used home cs)
