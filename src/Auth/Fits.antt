-- ===== src/Auth/Fits.antt =====
-- The client ids of michi_auth.c fit their buffers, so that a comparison with a stored id is exact.
use michi_music_stream.Prelude.{
  ℕ, zero, suc, ◌≡◌, refl, ap, sym, subst, ◌∙◌, false, not, ◌&&◌, Option, some, List, [], ◌∷◌, map,
  leb, str_eq, take, get_or, EspErr, is_ok, Option-cases, inl, inr, All, if-both,
}
use michi_music_stream.Identity.{Crypto, base64url_encode}
use michi_music_stream.Home.{Home, get_id, id_derives}
use michi_music_stream.Auth.Slots.{find_index, All-set, All-map, All-get, All-replicate}
use michi_music_stream.Auth.Checks.{prepare-Proves}
use michi_music_stream.Auth.Table.{
  Challenge, Auth, reset, purge_challenge, purge_expired, empty_challenge, max_active_challenges,
}
use michi_music_stream.Auth.Requests.{
  Client, Issue, mint_challenge, fresh_challenge, issue_challenge, create_challenge,
  is_challenge_of, is_challenge, is_free_challenge,
}
use michi_music_stream.Auth.Handlers.{Answer, Attempt, prepare, consume, session_slot}
use michi_music_stream.Auth.Histories.{AuthWorld}

-- A text that fits the buffers of ids.
abbrev pub Fits : List ℕ → Type 0
Fits id = take 43 id ≡ id

take-take : (n : ℕ) (xs : List ℕ) → take n (take n xs) ≡ take n xs
take-take zero xs = refl
take-take (suc n) [] = refl
take-take (suc n) (x ∷ xs) = ap (λ (t : List ℕ). x ∷ t) (take-take n xs)

-- The ids in the challenges fit their buffers.
pub FitsChallenge : Challenge → Type 0
FitsChallenge c = Fits c.client_michi_id

purge-FitsChallenge :
    (now : ℕ) (c : Challenge) → FitsChallenge c → FitsChallenge (purge_challenge now c)
unfolding purge_challenge FitsChallenge
purge-FitsChallenge now c h = if-both FitsChallenge (c.active && leb c.expires_mono_us now) h h

mint_challenge-Fits :
    (now : ℕ) (raw : ℕ → ℕ) (nonce_raw : List ℕ) (client : Client) (slot : ℕ) (a : Auth)
    → All FitsChallenge a.challenges
    → All FitsChallenge (mint_challenge now raw nonce_raw client slot a).2.challenges
unfolding mint_challenge fresh_challenge FitsChallenge
mint_challenge-Fits now raw nonce_raw client slot a h =
    let P = λ (r : EspErr × Option Issue × Auth). All FitsChallenge r.2.challenges in
    if-both P (not (is_ok (base64url_encode nonce_raw 23).0)) h
      (All-set FitsChallenge a.challenges slot _ h (take-take 43 client.michi_id))

issue_challenge-Fits :
    (now : ℕ) (raw : ℕ → ℕ) (nonce_raw : List ℕ) (client : Client) (a : Auth)
    → All FitsChallenge a.challenges
    → All FitsChallenge (issue_challenge now raw nonce_raw client a).2.challenges
unfolding issue_challenge
issue_challenge-Fits now raw nonce_raw client a h =
    let P = λ (r : EspErr × Option Issue × Auth). All FitsChallenge r.2.challenges in
    let minted = λ (slot : ℕ). mint_challenge-Fits now raw nonce_raw client slot a h in
    elim (Option-cases (find_index (is_challenge_of client.michi_id) a.challenges)) [
      | inr (slot, e) ↦ rw (e, issue_challenge) (if-both P _ h (minted slot))
      | inl e ↦
          rw (e, issue_challenge)
            (elim (Option-cases (find_index is_free_challenge a.challenges)) [
              | inl e' ↦ rw e' h
              | inr (slot, e') ↦ rw e' (minted slot)
            ])
    ]

pub purge-Fits :
    (now : ℕ) (cs : List Challenge)
    → All FitsChallenge cs
    → All FitsChallenge (map (purge_challenge now) cs)
purge-Fits now cs h = All-map FitsChallenge (purge_challenge now) cs h (purge-FitsChallenge now)

pub create_challenge-Fits :
    (crypto : Crypto) (home : Home) (now : ℕ) (raw : ℕ → ℕ) (nonce_raw : List ℕ) (client : Client)
    (a : Auth)
    → All FitsChallenge a.challenges
    → All FitsChallenge (create_challenge crypto home now raw nonce_raw client a).2.challenges
unfolding create_challenge purge_expired
create_challenge-Fits crypto home now raw nonce_raw client a h =
    let P = λ (r : EspErr × Option Issue × Auth). All FitsChallenge r.2.challenges in
    if-both P (home.provisioned && not (str_eq (get_id home).1 client.home_id)) h (
      if-both P (not (id_derives crypto client.pk client.michi_id)) h (
        issue_challenge-Fits now raw nonce_raw client (purge_expired now a)
          (purge-Fits now a.challenges h)))

get_or-Fits :
    (cs : List Challenge) (i : ℕ)
    → All FitsChallenge cs
    → FitsChallenge (get_or cs i empty_challenge)
unfolding FitsChallenge
get_or-Fits [] i h = refl
get_or-Fits (c ∷ cs) zero h = h.0
get_or-Fits (c ∷ cs) (suc i) h = get_or-Fits cs i h.1

pub consume-Fits :
    (now : ℕ) (t : Attempt) (a : Auth)
    → All FitsChallenge a.challenges
    → All FitsChallenge (consume now t a).1.challenges
unfolding consume
consume-Fits now t a h =
    let ch = get_or a.challenges t.slot empty_challenge in
    let P = λ (r : EspErr × Auth). All FitsChallenge r.1.challenges in
    let used =
      All-set FitsChallenge a.challenges t.slot (record ch { active = false }) h
        (unfold FitsChallenge in get_or-Fits a.challenges t.slot h) in
    if-both P (not (is_challenge t.challenge_id ch)) h
      (elim (Option-cases (session_slot t.client_michi_id a.sessions)) [
        | inl e ↦ rw e used
        | inr (slot, e) ↦ rw e used
      ])

pub reset-Fits : All FitsChallenge reset.challenges
unfolding reset FitsChallenge
reset-Fits = All-replicate FitsChallenge max_active_challenges empty_challenge refl

abbrev pub FitsAttempt : Attempt → Type 0
FitsAttempt t = Fits t.client_michi_id

pub prepare-Fits :
    (crypto : Crypto) (server : Option (List ℕ)) (w : AuthWorld) (now : ℕ) (token_raw : List ℕ)
    (ans : Answer) (t : Attempt)
    → (prepare crypto w.home server now token_raw ans w.auth).1 ≡ some t
    → All FitsChallenge w.auth.challenges
    → FitsAttempt t
unfolding FitsChallenge
prepare-Fits crypto server w now token_raw ans t e h =
    let proved = prepare-Proves crypto server w now token_raw ans t e in
    let (i, ch, id, at, on, time, same, known, checked, client, token) = proved in
    subst Fits (checked.client_named ∙ sym client)
      (All-get FitsChallenge w.auth.challenges i ch h at)
