-- ===== src/Auth/Grants.antt =====
-- Where the sessions come from, over any history.
use michi_music_stream.Prelude.{
  ℕ, ◌≡◌, refl, sym, subst, true, not, ◌&&◌, Option, List, [], ◌∷◌, map, leb, ◌==◌, str_eq, take,
  get_or, EspErr, get_elem?, if-both, Option-cases, inl, inr, ◌⊎◌, All,
}
use Prim.Native.Nat.{bit_and}
use michi_music_stream.Identity.{Crypto}
use michi_music_stream.Home.{Home}
use michi_music_stream.Auth.Slots.{All-set, All-map, All-get, All-mono, All-replicate}
use michi_music_stream.Auth.Table.{
  AuthSession, Auth, reset, purge_session, purge_expired, empty_challenge, empty_session,
  max_active_sessions,
}
use michi_music_stream.Auth.Requests.{Client, create_challenge, is_challenge}
use michi_music_stream.Auth.Handlers.{
  Answer, Attempt, prepare, finish_session, consume, fresh_session, session_slot, validate_in,
  validate_token_perm,
}
use michi_music_stream.Auth.Histories.{
  AuthCall, create_call, begin_call, finish_call, validate_call, reset_call, revoke_call, link_call,
  erase_call, AuthWorld, auth_run, auth_step, finish_step,
}
use michi_music_stream.Auth.Effects.{
  create_challenge-sessions, prepare-sessions, All-remove_at, attempts-prepare,
}
use michi_music_stream.Auth.Checks.{Proves, prepare-Proves}

module _ (crypto : Crypto) (server : Option (List ℕ)) (home : Home) where
  -- A verification begun by a call of the history, in the state that it found.
  abbrev pub Prepared : List AuthCall → Attempt → Type 0
  Prepared [] t = ⊥
  Prepared (begin_call now token_raw ans ∷ cs) t =
      Proves crypto server (auth_run crypto server home cs) now token_raw ans t ⊎ Prepared cs t
  Prepared (c ∷ cs) t = Prepared cs t

  -- An active session carries what such a verification has shown.
  abbrev pub Granted : List AuthCall → AuthSession → Type 0
  Granted cs s =
      s.active ≡ true
      → (t : Attempt) × Prepared cs t
        × (s.client_michi_id ≡ take 43 t.client_michi_id)
        × (s.session_token ≡ take 43 t.token)
        × (s.permissions ≡ t.perms)

  Prepared-later :
      (c : AuthCall) (cs : List AuthCall) (t : Attempt) → Prepared cs t → Prepared (c ∷ cs) t
  Prepared-later (begin_call now token_raw ans) cs t h = inr h
  Prepared-later (create_call now raw nonce_raw client) cs t h = h
  Prepared-later (finish_call now i) cs t h = h
  Prepared-later (validate_call now token perm) cs t h = h
  Prepared-later reset_call cs t h = h
  Prepared-later (revoke_call stored r) cs t h = h
  Prepared-later (link_call stored id pk) cs t h = h
  Prepared-later erase_call cs t h = h

  Granted-later :
      (c : AuthCall) (cs : List AuthCall) (s : AuthSession) → Granted cs s → Granted (c ∷ cs) s
  Granted-later c cs s h on =
      let (t, p, client, token, perms) = h on in (t, Prepared-later c cs t p, client, token, perms)

  Granted-purge :
      (cs : List AuthCall) (now : ℕ) (s : AuthSession)
      → Granted cs s
      → Granted cs (purge_session now s)
  unfolding purge_session
  Granted-purge cs now s h =
      if-both (Granted cs) (s.active && leb s.expires_mono_us now) (λ on. cc) h

  sessions-purge :
      (cs : List AuthCall) (now : ℕ) (ss : List AuthSession)
      → All (Granted cs) ss
      → All (Granted cs) (map (purge_session now) ss)
  sessions-purge cs now ss h = All-map (Granted cs) (purge_session now) ss h (Granted-purge cs now)

  validate_in-Granted :
      (cs : List AuthCall) (now : ℕ) (token : List ℕ) (perm : ℕ) (ss : List AuthSession)
      → All (Granted cs) ss
      → All (Granted cs) (validate_in now token perm ss).2
  unfolding validate_in
  validate_in-Granted cs now token perm [] h = h
  validate_in-Granted cs now token perm (s ∷ ss) h =
      let P = λ (r : EspErr × Option (List ℕ) × List AuthSession). All (Granted cs) r.2 in
      if-both P (s.active && str_eq s.session_token token)
        (if-both P (not (perm == 0) && not (bit_and s.permissions perm == perm)) h h)
        (h.0, validate_in-Granted cs now token perm ss h.1)

  abbrev Fine : List AuthCall → AuthWorld → Type 0
  Fine cs w = All (Prepared cs) w.attempts × All (Granted cs) w.auth.sessions

  consume-Granted :
      (cs : List AuthCall) (now : ℕ) (t : Attempt) (a : Auth)
      → Prepared cs t
      → All (Granted cs) a.sessions
      → All (Granted cs) (consume now t a).1.sessions
  unfolding consume fresh_session
  consume-Granted cs now t a p h =
      let ch = get_or a.challenges t.slot empty_challenge in
      let P = λ (r : EspErr × Auth). All (Granted cs) r.1.sessions in
      if-both P (not (is_challenge t.challenge_id ch)) h
        (elim (Option-cases (session_slot t.client_michi_id a.sessions)) [
          | inl e ↦ rw e h
          | inr (slot, e) ↦ rw e (
              All-set (Granted cs) a.sessions slot (fresh_session now t) h
                (λ on. (t, p, refl, refl, refl)))
        ])

  finish_step-Fine :
      (cs : List AuthCall) (now i : ℕ) (w : AuthWorld)
      → Fine cs w
      → Fine cs (finish_step crypto server now i (get_elem? w.attempts i) w)
  unfolding finish_step finish_session purge_expired
  finish_step-Fine cs now i w (ts, ss) = elim (Option-cases (get_elem? w.attempts i)) [
    | inl e ↦ rw e (ts, ss)
    | inr (t, e) ↦ rw e (
      All-remove_at (Prepared cs) w.attempts i ts,
      consume-Granted cs now t (purge_expired now w.auth)
          (All-get (Prepared cs) w.attempts i t ts e) (sessions-purge cs now w.auth.sessions ss),
    )
  ]

  Fine-later : (c : AuthCall) (cs : List AuthCall) (w : AuthWorld) → Fine cs w → Fine (c ∷ cs) w
  Fine-later c cs w (ts, ss) = (
    All-mono (Prepared cs) (Prepared (c ∷ cs)) w.attempts (Prepared-later c cs) ts,
    All-mono (Granted cs) (Granted (c ∷ cs)) w.auth.sessions (Granted-later c cs) ss,
  )

  reset-Granted : (cs : List AuthCall) → All (Granted cs) reset.sessions
  unfolding reset
  reset-Granted cs = All-replicate (Granted cs) max_active_sessions empty_session (λ on. cc)

  create-Granted :
      (cs : List AuthCall) (w : AuthWorld) (now : ℕ) (raw : ℕ → ℕ) (nonce_raw : List ℕ)
      (client : Client)
      → All (Granted cs) w.auth.sessions
      → All (Granted cs) (create_challenge crypto w.home now raw nonce_raw client w.auth).2.sessions
  create-Granted cs w now raw nonce_raw client h =
      create_challenge-sessions (All (Granted cs)) crypto w.home now raw nonce_raw client w.auth h
        (sessions-purge cs now w.auth.sessions h)

  prepare-Fine :
      (cs : List AuthCall) (now : ℕ) (token_raw : List ℕ) (ans : Answer)
      → let w = auth_run crypto server home cs in
        let cs' = begin_call now token_raw ans ∷ cs in
        Fine cs' w → Fine cs' (auth_run crypto server home cs')
  unfolding auth_run auth_step
  prepare-Fine cs now token_raw ans (ts, ss) =
      let w = auth_run crypto server home cs in
      let cs' = begin_call now token_raw ans ∷ cs in
      (
        attempts-prepare (Prepared cs') (prepare crypto w.home server now token_raw ans w.auth).1
            w.attempts (λ t e. inl (prepare-Proves crypto server w now token_raw ans t e)) ts,
        subst (All (Granted cs')) (sym (prepare-sessions crypto server w now token_raw ans))
            (sessions-purge cs' now w.auth.sessions ss),
      )

  run-Fine : (cs : List AuthCall) → Fine cs (auth_run crypto server home cs)
  unfolding auth_run auth_step validate_token_perm purge_expired
  run-Fine [] = (tt, reset-Granted [])
  run-Fine (begin_call now token_raw ans ∷ cs) =
      prepare-Fine cs now token_raw ans (
        Fine-later (begin_call now token_raw ans) cs (auth_run crypto server home cs) (run-Fine cs))
  run-Fine (create_call now raw nonce_raw client ∷ cs) =
      let (ts, ss) =
        Fine-later (create_call now raw nonce_raw client) cs (auth_run crypto server home cs)
          (run-Fine cs) in
      let w = auth_run crypto server home cs in
      (ts, create-Granted (create_call now raw nonce_raw client ∷ cs) w now raw nonce_raw client ss)
  run-Fine (finish_call now i ∷ cs) =
      finish_step-Fine (finish_call now i ∷ cs) now i (auth_run crypto server home cs)
        (Fine-later (finish_call now i) cs (auth_run crypto server home cs) (run-Fine cs))
  run-Fine (validate_call now token perm ∷ cs) =
      let (ts, ss) =
        Fine-later (validate_call now token perm) cs (auth_run crypto server home cs)
          (run-Fine cs) in
      let cs' = validate_call now token perm ∷ cs in
      let sessions = (auth_run crypto server home cs).auth.sessions in
      (
        ts,
        validate_in-Granted cs' now token perm (map (purge_session now) sessions)
            (sessions-purge cs' now sessions ss),
      )
  run-Fine (reset_call ∷ cs) = (
    (Fine-later reset_call cs (auth_run crypto server home cs) (run-Fine cs)).0,
    reset-Granted (reset_call ∷ cs),
  )
  run-Fine (revoke_call stored r ∷ cs) =
      Fine-later (revoke_call stored r) cs (auth_run crypto server home cs) (run-Fine cs)
  run-Fine (link_call stored id pk ∷ cs) =
      Fine-later (link_call stored id pk) cs (auth_run crypto server home cs) (run-Fine cs)
  run-Fine (erase_call ∷ cs) =
      Fine-later erase_call cs (auth_run crypto server home cs) (run-Fine cs)

  -- Authorization: whatever calls are made, in any order and interleaving, every session that is
  -- active, and so every token that is accepted, goes back to a verification in which a challenge
  -- that was active and not expired was answered, the certificate was verified against the home's
  -- root key, the client was not revoked, and the device had signed the challenge; the session has
  -- that client, the token minted then, and exactly the permissions of the certificate's roles.
  pub sessions-Granted :
      (cs : List AuthCall) → All (Granted cs) (auth_run crypto server home cs).auth.sessions
  sessions-Granted cs = (run-Fine cs).1
