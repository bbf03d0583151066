-- ===== src/Auth/Eviction.antt =====
-- No entry of another client is evicted from the tables of michi_auth.c.
use michi_music_stream.Prelude.{
  ℕ, ◌<◌, ◌≡◌, sym, subst, ◌∙◌, Bool, true, false, not, ◌&&◌, Option, some, List, map, ltb, str_eq,
  get_or, set, EspErr, is_ok, get_elem?, arith, Option-cases, inl, inr, if-both, if-split,
}
use michi_music_stream.Identity.{Crypto, base64url_encode}
use michi_music_stream.Home.{Home, get_id, id_derives}
use michi_music_stream.Auth.Slots.{
  find_index, find_index_sound, get_elem?-set, get_elem?-map, get_or_of_get_elem?,
}
use michi_music_stream.Auth.Table.{
  Challenge, AuthSession, Auth, purge_challenge, purge_session, purge_expired, empty_challenge,
}
use michi_music_stream.Auth.Requests.{
  Client, Issue, mint_challenge, fresh_challenge, issue_challenge, create_challenge,
  is_challenge_of, is_challenge, is_free_challenge, is_free_session, is_session_of,
}
use michi_music_stream.Auth.Handlers.{Attempt, finish_session, consume, session_slot, fresh_session}

-- A write to a slot that holds something else keeps the entry.
set-keeps {ℓ} :
    {A : Type ℓ} (xs : List A) (i j : ℕ) (x v : A)
    → (i ≡ j → ⊥)
    → get_elem? xs i ≡ some x
    → get_elem? (set xs j v) i ≡ some x
set-keeps xs i j x v ne h = ground (arith, get_elem?-set xs i j v x)

-- Neither a late slot nor a free one is that of a live challenge.
late_slot-ne :
    (cs : List Challenge) (now i slot : ℕ) (ch : Challenge)
    → get_elem? cs i ≡ some ch
    → now < ch.expires_mono_us
    → ltb now (get_or cs slot empty_challenge).expires_mono_us ≡ false
    → i ≡ slot
    → ⊥
late_slot-ne cs now i slot ch at valid late same =
    let here =
      subst (λ (j : ℕ). get_or cs j empty_challenge ≡ ch) same
        (get_or_of_get_elem? cs i empty_challenge ch at) in
    ground arith

free_slot-ne {ℓ} :
    {A : Type ℓ} (p : A → Bool) (xs : List A) (i slot : ℕ) (x : A)
    → get_elem? xs i ≡ some x
    → p x ≡ false
    → find_index p xs ≡ some slot
    → i ≡ slot
    → ⊥
free_slot-ne p xs i slot x at off e same =
    let (y, at', test) = find_index_sound p xs slot e in
    let here = subst (λ (j : ℕ). get_elem? xs j ≡ some x) same at in
    let equal : some x ≡ some y = sym here ∙ at' in ground arith

module _ (now i : ℕ) (ch : Challenge) (on : ch.active ≡ true)
    (valid : now < ch.expires_mono_us) where
  issue_challenge-keeps :
      (raw : ℕ → ℕ) (nonce_raw : List ℕ) (client : Client) (a : Auth)
      → get_elem? a.challenges i ≡ some ch
      → get_elem? (issue_challenge now raw nonce_raw client a).2.challenges i ≡ some ch
  unfolding issue_challenge mint_challenge
  issue_challenge-keeps raw nonce_raw client a at =
      let P = λ (r : EspErr × Option Issue × Auth). get_elem? r.2.challenges i ≡ some ch in
      let fresh = fresh_challenge now raw (base64url_encode nonce_raw 23).1 client in
      let bad = not (is_ok (base64url_encode nonce_raw 23).0) in
      elim (Option-cases (find_index (is_challenge_of client.michi_id) a.challenges)) [
        | inr (slot, e) ↦
            rw (e, issue_challenge)
              (if-split P (ltb now (get_or a.challenges slot empty_challenge).expires_mono_us)
                (λ _. at)
                (λ late. if-both P bad at (
                  set-keeps a.challenges i slot ch fresh
                    (late_slot-ne a.challenges now i slot ch at valid late) at)))
        | inl e ↦
            rw (e, issue_challenge)
              (elim (Option-cases (find_index is_free_challenge a.challenges)) [
                | inl e' ↦ rw e' at
                | inr (slot, e') ↦ rw e' (
                    if-both P bad at (
                      set-keeps a.challenges i slot ch fresh
                        (free_slot-ne is_free_challenge a.challenges i slot ch at (ground arith) e')
                        at))
              ])
      ]

  purge-keeps :
      (cs : List Challenge)
      → get_elem? cs i ≡ some ch
      → get_elem? (map (purge_challenge now) cs) i ≡ some ch
  unfolding purge_challenge
  purge-keeps cs at = get_elem?-map (purge_challenge now) cs i ch at ∙ ground arith

  -- A request for a challenge, by any client and with any answer, leaves every challenge that is
  -- active and not expired as it is, also when the table is full.
  pub create_challenge-keeps :
      (crypto : Crypto) (home : Home) (raw : ℕ → ℕ) (nonce_raw : List ℕ) (client : Client)
      (a : Auth)
      → get_elem? a.challenges i ≡ some ch
      → get_elem? (create_challenge crypto home now raw nonce_raw client a).2.challenges i ≡ some ch
  unfolding create_challenge purge_expired
  create_challenge-keeps crypto home raw nonce_raw client a at =
      let P = λ (r : EspErr × Option Issue × Auth). get_elem? r.2.challenges i ≡ some ch in
      if-both P (home.provisioned && not (str_eq (get_id home).1 client.home_id)) at (
        if-both P (not (id_derives crypto client.pk client.michi_id)) at (
          issue_challenge-keeps raw nonce_raw client (purge_expired now a)
            (purge-keeps a.challenges at)))

module _ (now i : ℕ) (s : AuthSession) (on : s.active ≡ true)
    (valid : now < s.expires_mono_us) where
  consume-keeps :
      (t : Attempt) (a : Auth)
      → str_eq s.client_michi_id t.client_michi_id ≡ false
      → get_elem? a.sessions i ≡ some s
      → get_elem? (consume now t a).1.sessions i ≡ some s
  unfolding consume session_slot
  consume-keeps t a other at =
      let P = λ (r : EspErr × Auth). get_elem? r.1.sessions i ≡ some s in
      if-both P (not (is_challenge t.challenge_id (get_or a.challenges t.slot empty_challenge))) at
        (elim (Option-cases (find_index (is_session_of t.client_michi_id) a.sessions)) [
          | inr (slot, e) ↦ rw e (
              set-keeps a.sessions i slot s (fresh_session now t)
                (free_slot-ne (is_session_of t.client_michi_id) a.sessions i slot s at
                  (ground arith) e)
                at)
          | inl e ↦ rw e (elim (Option-cases (find_index is_free_session a.sessions)) [
            | inl e' ↦ rw e' at
            | inr (slot, e') ↦ rw e' (
                set-keeps a.sessions i slot s (fresh_session now t)
                  (free_slot-ne is_free_session a.sessions i slot s at (ground arith) e') at)
          ])
        ])

  -- Opening a session leaves every other client's session that is active and not expired as it is,
  -- also when the table is full.
  pub finish_session-keeps :
      (t : Attempt) (a : Auth)
      → str_eq s.client_michi_id t.client_michi_id ≡ false
      → get_elem? a.sessions i ≡ some s
      → get_elem? (finish_session now t a).1.sessions i ≡ some s
  unfolding finish_session purge_expired purge_session
  finish_session-keeps t a other at =
      consume-keeps t (purge_expired now a) other
        (get_elem?-map (purge_session now) a.sessions i s at ∙ ground arith)
