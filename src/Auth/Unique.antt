-- ===== src/Auth/Unique.antt =====
-- One session for a client, over any history.
use michi_music_stream.Prelude.{
  ℕ, ◌+◌, ◌≤◌, ◌≡◌, refl, ap, sym, subst, true, false, not, Option, some, List, [], ◌∷◌, map,
  if◌then◌else◌, str_eq, str_eq_sound, get_or, set, EspErr, get_elem?, arith, Option-cases, inl,
  inr, ◌⊎◌, All, if-both,
}
use michi_music_stream.Identity.{Crypto}
use michi_music_stream.Home.{Home}
use michi_music_stream.Auth.Slots.{
  find_index, count_if, find_index_sound, find_index-none, count_if-set, count_if-map, All-get,
}
use michi_music_stream.Auth.Effects.{
  create_challenge-sessions, prepare-sessions, prepare-challenges, All-remove_at, attempts-prepare,
}
use michi_music_stream.Auth.Fits.{
  Fits, FitsAttempt, FitsChallenge, purge-Fits, create_challenge-Fits, consume-Fits, reset-Fits,
  prepare-Fits,
}
use michi_music_stream.Auth.Table.{
  AuthSession, Auth, reset, purge_session, purge_expired, empty_challenge,
}
use michi_music_stream.Auth.Requests.{is_challenge, is_session_of, is_free_session}
use michi_music_stream.Auth.Handlers.{
  Attempt, prepare, finish_session, consume, session_slot, fresh_session, validate_in,
  validate_token_perm,
}
use michi_music_stream.Auth.Histories.{
  AuthCall, create_call, begin_call, finish_call, validate_call, reset_call, revoke_call, link_call,
  erase_call, AuthWorld, auth_run, auth_step, finish_step,
}

-- How many active sessions the client has.
pub sessions_of : List ℕ → List AuthSession → ℕ
sessions_of client ss = count_if (is_session_of client) ss

abbrev Once : List AuthSession → Type 0
Once ss = (client : List ℕ) → sessions_of client ss ≤ 1

purge-Once : (now : ℕ) (ss : List AuthSession) → Once ss → Once (map (purge_session now) ss)
unfolding sessions_of purge_session
purge-Once now ss h client = omega (
  arith,
  h client,
  count_if-map (is_session_of client) (purge_session now) ss
      (λ (s : AuthSession). λ e. ground arith),
)

validate_in-sessions_of :
    (client : List ℕ) (now : ℕ) (token : List ℕ) (perm : ℕ) (ss : List AuthSession)
    → sessions_of client (validate_in now token perm ss).2 ≡ sessions_of client ss
unfolding sessions_of validate_in count_if
validate_in-sessions_of client now token perm [] = refl
validate_in-sessions_of client now token perm (s ∷ ss) =
    ground (arith, validate_in-sessions_of client now token perm ss)

-- The slot that a session is written to: the client's own, or a free one where it has none.
session_slot-cases :
    (client : List ℕ) (ss : List AuthSession) (slot : ℕ)
    → session_slot client ss ≡ some slot
    → (x : AuthSession) × (get_elem? ss slot ≡ some x)
      × ((x.active ≡ true) × (x.client_michi_id ≡ client)
          ⊎ (x.active ≡ false) × (sessions_of client ss ≡ 0))
unfolding session_slot sessions_of
session_slot-cases client ss slot h = elim (Option-cases (find_index (is_session_of client) ss)) [
  | inr (i, e) ↦
      (let (x, at, test) = find_index_sound (is_session_of client) ss i e in
        let same : i ≡ slot = ground arith in
        (
          x,
          subst (λ (j : ℕ). get_elem? ss j ≡ some x) same at,
          inl (ground (arith, str_eq_sound x.client_michi_id client)),
        ))
  | inl e ↦
      (let free : find_index is_free_session ss ≡ some slot = ground arith in
        let (x, at, test) = find_index_sound is_free_session ss slot free in
        (x, at, inr (ground arith, find_index-none (is_session_of client) ss e)))
]

sessions_of-set :
    (client : List ℕ) (ss : List AuthSession) (i : ℕ) (x v : AuthSession)
    → get_elem? ss i ≡ some x
    → sessions_of client (set ss i v) + (if is_session_of client x then 1 else 0)
      ≡ sessions_of client ss + (if is_session_of client v then 1 else 0)
unfolding sessions_of
sessions_of-set client ss i x v h = count_if-set (is_session_of client) ss i x v h

sessions_of-same :
    (client other : List ℕ) (ss : List AuthSession)
    → str_eq other client ≡ true
    → sessions_of client ss ≡ sessions_of other ss
sessions_of-same client other ss h =
    ap (λ (c : List ℕ). sessions_of c ss) (sym (str_eq_sound other client h))

open-Once :
    (now : ℕ) (t : Attempt) (ss : List AuthSession) (slot : ℕ)
    → Fits t.client_michi_id
    → session_slot t.client_michi_id ss ≡ some slot
    → Once ss
    → Once (set ss slot (fresh_session now t))
unfolding fresh_session
open-Once now t ss slot fit e h client =
    let (x, at, which) = session_slot-cases t.client_michi_id ss slot e in
    let moved = sessions_of-set client ss slot x (fresh_session now t) at in
    elim which [
      | inl (on, own) ↦ ground (arith, h client)
      | inr (off, none_yet) ↦ ground (arith, h client, sessions_of-same client t.client_michi_id ss)
    ]

consume-Once :
    (now : ℕ) (t : Attempt) (a : Auth)
    → Fits t.client_michi_id
    → Once a.sessions
    → Once (consume now t a).1.sessions
unfolding consume
consume-Once now t a fit h =
    let ch = get_or a.challenges t.slot empty_challenge in
    let P = λ (r : EspErr × Auth). Once r.1.sessions in
    if-both P (not (is_challenge t.challenge_id ch)) h
      (elim (Option-cases (session_slot t.client_michi_id a.sessions)) [
        | inl e ↦ rw e h
        | inr (slot, e) ↦ rw e (open-Once now t a.sessions slot fit e h)
      ])

reset-Once : Once reset.sessions
unfolding reset sessions_of count_if
reset-Once client = omega arith

module _ (crypto : Crypto) (server : Option (List ℕ)) where
  abbrev Fine : AuthWorld → Type 0
  Fine w = All FitsChallenge w.auth.challenges × All FitsAttempt w.attempts × Once w.auth.sessions

  finish_step-Fine :
      (now i : ℕ) (w : AuthWorld)
      → Fine w
      → Fine (finish_step crypto server now i (get_elem? w.attempts i) w)
  unfolding finish_step finish_session purge_expired
  finish_step-Fine now i w (cs, ts, ss) = elim (Option-cases (get_elem? w.attempts i)) [
    | inl e ↦ rw e (cs, ts, ss)
    | inr (t, e) ↦ rw e (
      consume-Fits now t (purge_expired now w.auth) (purge-Fits now w.auth.challenges cs),
      All-remove_at FitsAttempt w.attempts i ts,
      consume-Once now t (purge_expired now w.auth) (All-get FitsAttempt w.attempts i t ts e)
          (purge-Once now w.auth.sessions ss),
    )
  ]

  step-Fine : (c : AuthCall) (w : AuthWorld) → Fine w → Fine (auth_step crypto server c w)
  unfolding auth_step validate_token_perm purge_expired
  step-Fine (create_call now raw nonce_raw client) w (cs, ts, ss) = (
    create_challenge-Fits crypto w.home now raw nonce_raw client w.auth cs,
    ts,
    create_challenge-sessions Once crypto w.home now raw nonce_raw client w.auth ss
        (purge-Once now w.auth.sessions ss),
  )
  step-Fine (begin_call now token_raw ans) w (cs, ts, ss) = (
    subst (All FitsChallenge) (sym (prepare-challenges crypto server w now token_raw ans))
        (purge-Fits now w.auth.challenges cs),
    attempts-prepare FitsAttempt (prepare crypto w.home server now token_raw ans w.auth).1
        w.attempts (λ t e. prepare-Fits crypto server w now token_raw ans t e cs) ts,
    subst Once (sym (prepare-sessions crypto server w now token_raw ans))
        (purge-Once now w.auth.sessions ss),
  )
  step-Fine (finish_call now i) w (cs, ts, ss) = finish_step-Fine now i w (cs, ts, ss)
  step-Fine (validate_call now token perm) w (cs, ts, ss) = (
    purge-Fits now w.auth.challenges cs,
    ts,
    λ client. omega (
      arith,
      purge-Once now w.auth.sessions ss client,
      validate_in-sessions_of client now token perm (map (purge_session now) w.auth.sessions),
    ),
  )
  step-Fine reset_call w (cs, ts, ss) = (reset-Fits, ts, reset-Once)
  step-Fine (revoke_call stored r) w h = h
  step-Fine (link_call stored id pk) w h = h
  step-Fine erase_call w h = h

  run-Fine : (home : Home) (cs : List AuthCall) → Fine (auth_run crypto server home cs)
  unfolding auth_run
  run-Fine home [] = (reset-Fits, tt, reset-Once)
  run-Fine home (c ∷ cs) = step-Fine c (auth_run crypto server home cs) (run-Fine home cs)

  -- A client has at most one active session, whatever calls are made, in any order and interleaving:
  -- a new session of a client replaces its old one.
  pub sessions_of-le_one :
      (home : Home) (cs : List AuthCall) (client : List ℕ)
      → sessions_of client (auth_run crypto server home cs).auth.sessions ≤ 1
  sessions_of-le_one home cs = (run-Fine home cs).2
