-- ===== src/Auth/Checks.antt =====
-- What a verification has checked when it reaches its second section.
use michi_music_stream.Prelude.{
  ℕ, ◌<◌, ◌≡◌, refl, ap, sym, subst, ◌∙◌, true, false, Option, none, some, List, map, str_eq_sound,
  take, EspErr, get_elem?, arith, Option-cases, inl, inr, EspErr-ok_of_is_ok,
}
use michi_music_stream.Identity.{Crypto, base64url_encode, base64url_decode}
use michi_music_stream.Home.{
  Home, key_bytes, sig_bytes, verify_membership, is_device_revoked, verify_device_auth,
  get_root_public_key,
}
use michi_music_stream.Auth.Slots.{
  find_index, find_index_sound, get_elem?_of_map, get_or_of_get_elem?,
}
use michi_music_stream.Auth.Table.{
  Challenge, Auth, purge_challenge, purge_expired, empty_challenge, role_permissions,
}
use michi_music_stream.Auth.Requests.{is_challenge}
use michi_music_stream.Auth.Handlers.{
  Answer, Attempt, begin_session, prepare, attempt, check_answer, sign_token,
}
use michi_music_stream.Auth.Histories.{AuthWorld}

-- What an answer must have shown: the certificate is the home's and names the client, the client is
-- not revoked, its roles give exactly these permissions, and the device signed this challenge.
pub record Checked (crypto : Crypto) (home : Home) (server : List ℕ) (ch : Challenge) (ans : Answer)
    (perms : ℕ) : Type 0 where
  pub client_named : ch.client_michi_id ≡ ans.client_michi_id
  pub device_named : ch.client_michi_id ≡ ans.membership.device_michi_id
  pub home_named : ch.home_id ≡ ans.membership.home_id
  pub certified : verify_membership crypto home ans.membership home.root_pk ≡ true
  pub not_revoked : is_device_revoked ans.client_michi_id home.revocations ≡ false
  pub roles_permit :
      perms ≡ role_permissions 0 (take ans.membership.role_count ans.membership.roles)
  pub permits : 0 < perms
  pub device_signed :
      verify_device_auth crypto ch.home_id server ans.client_michi_id ch.challenge_id ch.nonce
        (base64url_decode ans.signature_b64 sig_bytes).1
        (base64url_decode ans.membership.device_public_key key_bytes).1
      ≡ true

check_answer-Checked :
    (crypto : Crypto) (home : Home) (server : Option (List ℕ)) (ch : Challenge) (ans : Answer)
    → (check_answer crypto home server ch ans).0 ≡ EspErr.ok
    → (id : List ℕ) × (server ≡ some id)
      × Checked crypto home id ch ans (check_answer crypto home server ch ans).1
unfolding check_answer get_root_public_key
check_answer-Checked crypto home none ch ans h = absurd (ground arith)
check_answer-Checked crypto home (some id) ch ans h = (
  id,
  refl,
  ground (
    arith,
    str_eq_sound ch.client_michi_id ans.client_michi_id,
    str_eq_sound ch.client_michi_id ans.membership.device_michi_id,
    str_eq_sound ch.home_id ans.membership.home_id,
  ),
)

-- What a verification that reaches its second section has met: a challenge that is active and not
-- expired, the answer checked against it, and the token minted.
abbrev pub Proves : Crypto → Option (List ℕ) → AuthWorld → ℕ → List ℕ → Answer → Attempt → Type 0
Proves crypto server w now token_raw ans t =
    (i : ℕ) × (ch : Challenge) × (id : List ℕ) × (get_elem? w.auth.challenges i ≡ some ch)
    × (ch.active ≡ true)
    × (now < ch.expires_mono_us)
    × (ch.challenge_id ≡ ans.challenge_id)
    × (server ≡ some id)
    × Checked crypto w.home id ch ans t.perms
    × (t.client_michi_id ≡ ans.client_michi_id)
    × (t.token ≡ (base64url_encode token_raw 44).1)

purge_challenge-active :
    (now : ℕ) (c : Challenge)
    → (purge_challenge now c).active ≡ true
    → (purge_challenge now c ≡ c) × (now < c.expires_mono_us)
unfolding purge_challenge
purge_challenge-active now c h = ground arith

begin_session-found :
    (now : ℕ) (challenge_id : List ℕ) (a : Auth) (slot : ℕ) (ch : Challenge)
    → (begin_session now challenge_id a).0 ≡ some (slot, ch)
    → (get_elem? a.challenges slot ≡ some ch)
      × (ch.active ≡ true)
      × (now < ch.expires_mono_us)
      × (ch.challenge_id ≡ challenge_id)
unfolding begin_session purge_expired
begin_session-found now challenge_id a slot ch h =
    elim (Option-cases
      (find_index (is_challenge challenge_id) (map (purge_challenge now) a.challenges))) [
        | inl e ↦ absurd (ground arith)
        | inr (i, e) ↦
            (let (x, at, test) =
                find_index_sound (is_challenge challenge_id)
                  (map (purge_challenge now) a.challenges) i e in
              let (y, at', purged) = get_elem?_of_map (purge_challenge now) a.challenges i x at in
              let or =
                get_or_of_get_elem? (map (purge_challenge now) a.challenges) i empty_challenge x
                  at in
              ground
                (arith, purge_challenge-active now y, str_eq_sound x.challenge_id challenge_id))
      ]

attempt-ok :
    (crypto : Crypto) (home : Home) (server : Option (List ℕ)) (token_raw : List ℕ) (ans : Answer)
    (slot : ℕ) (ch : Challenge) (t : Attempt)
    → (attempt crypto home server token_raw ans (some (slot, ch))).1 ≡ some t
    → ((check_answer crypto home server ch ans).0 ≡ EspErr.ok)
      × (t.perms ≡ (check_answer crypto home server ch ans).1)
      × (t.client_michi_id ≡ ans.client_michi_id)
      × (t.token ≡ (base64url_encode token_raw 44).1)
unfolding attempt sign_token
attempt-ok crypto home none token_raw ans slot ch t h =
    ground (arith, EspErr-ok_of_is_ok (check_answer crypto home none ch ans).0)
attempt-ok crypto home (some id) token_raw ans slot ch t h =
    ground (arith, EspErr-ok_of_is_ok (check_answer crypto home (some id) ch ans).0)

pub prepare-Proves :
    (crypto : Crypto) (server : Option (List ℕ)) (w : AuthWorld) (now : ℕ) (token_raw : List ℕ)
    (ans : Answer) (t : Attempt)
    → (prepare crypto w.home server now token_raw ans w.auth).1 ≡ some t
    → Proves crypto server w now token_raw ans t
unfolding prepare
prepare-Proves crypto server w now token_raw ans t h =
    elim (Option-cases (begin_session now ans.challenge_id w.auth).0) [
      | inl e ↦ absurd (unfold attempt in ground arith)
      | inr ((slot, ch), e) ↦
          (let h' : (attempt crypto w.home server token_raw ans (some (slot, ch))).1 ≡ some t =
              ap (λ (o : Option (ℕ × Challenge)). (attempt crypto w.home server token_raw ans o).1)
                (sym e)
              ∙ h in
            let (ok', perms, client, token) =
              attempt-ok crypto w.home server token_raw ans slot ch t h' in
            let (at, on, time, same) = begin_session-found now ans.challenge_id w.auth slot ch e in
            let (id, known, checked) = check_answer-Checked crypto w.home server ch ans ok' in
            (
              slot,
              ch,
              id,
              at,
              on,
              time,
              same,
              known,
              subst (Checked crypto w.home id ch ans) (sym perms) checked,
              client,
              token,
            ))
    ]
