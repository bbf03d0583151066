-- ===== src/Auth/Accepted.antt =====
-- The validation of a token on the tables that handed it out.
use michi_music_stream.Prelude.{
  ℕ, zero, suc, ◌+◌, ◌*◌, ◌≤◌, ◌<◌, ◌≡◌, sym, subst, ap, ◌∙◌, EspErr-ok_of_is_ok, true, Option,
  some, List, [], ◌∷◌, map, ◌==◌, str_eq, str_eq_refl, take, get_elem?, set, EspErr, arith,
  Option-cases, inl, inr,
}
use Prim.Native.Nat.{bit_and}
use michi_music_stream.Identity.{Crypto}
use michi_music_stream.Home.{Home}
use michi_music_stream.Auth.Slots.{find_index, find_index_sound, count_if, count_if-map}
use michi_music_stream.Auth.Table.{AuthSession, Auth, purge_session, purge_expired, session_ttl_sec}
use michi_music_stream.Auth.Requests.{is_session_of, is_free_session}
use michi_music_stream.Auth.Handlers.{
  Attempt, Answer, prepare, verify_and_create_session, finish_session, consume, fresh_session,
  session_slot, validate_token_perm,
}
use michi_music_stream.Auth.Tokens.{has_token, permits, holds, validate-holds}

-- How many active sessions have the token.
unfoldable pub bearers : List ℕ → List AuthSession → ℕ
bearers token ss = count_if (has_token token) ss

purge-bearers :
    (token : List ℕ) (now : ℕ) (ss : List AuthSession)
    → bearers token (map (purge_session now) ss) ≤ bearers token ss
unfolding bearers purge_session
purge-bearers token now ss = count_if-map _ _ ss (λ (s : AuthSession). λ h. ground arith)

-- A new session whose token no other has is the one that its token finds.
holds-set :
    (token : List ℕ) (perm : ℕ) (client : List ℕ) (until slot : ℕ) (v : AuthSession)
    (ss : List AuthSession) (x : AuthSession)
    → get_elem? ss slot ≡ some x
    → bearers token ss ≡ 0
    → has_token token v ≡ true
    → permits perm v ≡ true
    → until ≤ v.expires_mono_us
    → str_eq v.client_michi_id client ≡ true
    → holds token perm client until (set ss slot v) ≡ true
unfolding holds bearers count_if
holds-set token perm client until slot v [] x at b t p l c = absurd (ground arith)
holds-set token perm client until zero v (s ∷ ss) x at b t p l c = ground arith
holds-set token perm client until (suc slot) v (s ∷ ss) x at b t p l c =
    ground (arith, holds-set token perm client until slot v ss x)

session_slot-in_range :
    (client : List ℕ) (ss : List AuthSession) (slot : ℕ)
    → session_slot client ss ≡ some slot
    → (x : AuthSession) × (get_elem? ss slot ≡ some x)
unfolding session_slot
session_slot-in_range client ss slot h =
    elim (Option-cases (find_index (is_session_of client) ss)) [
      | inr (i, e) ↦
          (let (x, at, test) = find_index_sound (is_session_of client) ss i e in
            let same : i ≡ slot = ground arith in
            (x, subst (λ (j : ℕ). get_elem? ss j ≡ some x) same at))
      | inl e ↦
          (let free : find_index is_free_session ss ≡ some slot = ground arith in
            let (x, at, test) = find_index_sound is_free_session ss slot free in (x, at))
    ]

-- Where the second section answers ESP_OK, it wrote the session to a slot.
consume-ok :
    (now : ℕ) (t : Attempt) (a : Auth)
    → (consume now t a).0 ≡ EspErr.ok
    → (slot : ℕ) × (session_slot t.client_michi_id a.sessions ≡ some slot)
      × ((consume now t a).1.sessions ≡ set a.sessions slot (fresh_session now t))
unfolding consume
consume-ok now t a h = elim (Option-cases (session_slot t.client_michi_id a.sessions)) [
  | inl e ↦ absurd (ground arith)
  | inr (slot, e) ↦ (slot, e, ground arith)
]

consume-holds :
    (now perm : ℕ) (t : Attempt) (a : Auth)
    → (consume now t a).0 ≡ EspErr.ok
    → bearers (take 43 t.token) a.sessions ≡ 0
    → (bit_and t.perms perm == perm) ≡ true
    → holds
        (take 43 t.token)
        perm
        (take 43 t.client_michi_id)
        (now + session_ttl_sec * 1000000)
        (consume now t a).1.sessions
      ≡ true
unfolding fresh_session
consume-holds now perm t a h b p =
    let (slot, e, written) = consume-ok now t a h in
    let (x, at) = session_slot-in_range t.client_michi_id a.sessions slot e in
    let token = take 43 t.token in
    let client = take 43 t.client_michi_id in
    subst
      (λ (ss : List AuthSession).
        holds token perm client (now + session_ttl_sec * 1000000) ss ≡ true)
      (sym written)
      (holds-set token perm client (now + session_ttl_sec * 1000000) slot (fresh_session now t)
        a.sessions x at b (str_eq_refl token) (ground arith) (omega arith) (str_eq_refl client))

validate-finish_session :
    (now later perm : ℕ) (t : Attempt) (a : Auth)
    → (finish_session now t a).0 ≡ EspErr.ok
    → bearers (take 43 t.token) a.sessions ≡ 0
    → (bit_and t.perms perm == perm) ≡ true
    → later < now + session_ttl_sec * 1000000
    → let (err, id, a') =
        validate_token_perm later (take 43 t.token) perm (finish_session now t a).1 in
      (err ≡ EspErr.ok) × (id ≡ some (take 43 t.client_michi_id))
unfolding finish_session purge_expired
validate-finish_session now later perm t a h b p soon =
    let until = now + session_ttl_sec * 1000000 in
    let fresh =
      consume-holds now perm t (purge_expired now a) h
        (omega (arith, purge-bearers (take 43 t.token) now a.sessions)) p in
    let (accepted, named, _) =
      validate-holds (take 43 t.token) perm (take 43 t.client_michi_id) until later
        (finish_session now t a).1 soon fresh in
    (accepted, named)

module _ (crypto : Crypto) (home : Home) (server : Option (List ℕ)) (now session_now : ℕ)
    (token_raw : List ℕ) (others : Auth → Auth) (ans : Answer) (a : Auth) (t : Attempt)
    (prepared : (prepare crypto home server now token_raw ans a).1 ≡ some t)
    (answered : (verify_and_create_session crypto home server now session_now token_raw others ans
        a).0
      ≡ EspErr.ok) where
  -- The call's answer is that of its second section, after what the other tasks did.
  verify-finish :
      let second =
        finish_session session_now t (others (prepare crypto home server now token_raw ans a).2) in
      let (err, reply, a') =
        verify_and_create_session crypto home server now session_now token_raw others ans a in
      (second.0 ≡ EspErr.ok)
      × (reply ≡ some (t.token, t.server_sig, session_ttl_sec))
      × (a' ≡ second.1)
  unfolding verify_and_create_session
  verify-finish =
      let second =
        finish_session session_now t (others (prepare crypto home server now token_raw ans a).2) in
      ground (arith, EspErr-ok_of_is_ok second.0)

  -- A token that `michi_auth_verify_and_create_session` hands out with ESP_OK, whatever other tasks
  -- did between its two sections, and which no other active session has then, is accepted by a
  -- validation of the tables it leaves at any time within an hour, for every permission that the
  -- roles gave, and names its client.
  pub validate-verify_and_create_session :
      (later perm : ℕ)
      → bearers
          (take 43 t.token)
          (others (prepare crypto home server now token_raw ans a).2).sessions
        ≡ 0
      → (bit_and t.perms perm == perm) ≡ true
      → later < session_now + session_ttl_sec * 1000000
      → let (err, reply, a') =
          verify_and_create_session crypto home server now session_now token_raw others ans a in
        let (accepted, id, a'') = validate_token_perm later (take 43 t.token) perm a' in
        (reply ≡ some (t.token, t.server_sig, session_ttl_sec))
        × (accepted ≡ EspErr.ok)
        × (id ≡ some (take 43 t.client_michi_id))
  validate-verify_and_create_session later perm b p soon =
      let (second, reply, left) = verify-finish in
      let (accepted, named) =
        validate-finish_session session_now later perm t
          (others (prepare crypto home server now token_raw ans a).2) second b p soon in
      let at = λ (x : Auth). validate_token_perm later (take 43 t.token) perm x in
      (reply, ap (λ (x : Auth). (at x).0) left ∙ accepted, ap (λ (x : Auth). (at x).1) left ∙ named)
