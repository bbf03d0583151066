-- ===== src/Session/Access.antt =====
-- What a caller with a wrong session token can do in michi_session.c.
use michi_music_stream.Prelude.{
  ℕ, ◌≤◌, ap, Bool, true, false, ◌||◌, not, Option, List, ◌≡◌, refl, ◌⊎◌, inl, inr, EspErr, is_ok,
  if-both, arith, if-otherwise, sym, ◌∙◌, subst,
}
use michi_music_stream.Session.{Statics, Devices}
use michi_music_stream.Session.Text.{token_valid, token_matches}
use michi_music_stream.Session.Lease.{expire_if_needed}
use michi_music_stream.Session.Calls.{text, stop_live, stop, patch_live, patch_refuses, patch}
use michi_music_stream.Session.Closing.{IsClosed}
use michi_music_stream.Session.Renewal.{expire-same, expire-Spares}

module _ {W : Type 0} (dev : Devices W) where
  -- What an expiry of the lease may have left: nothing has changed, or the lease is over, the devices
  -- saw no more than the attempt to close the session, and that kept it or closed it.
  abbrev pub IsExpiry : Statics → W → Statics → W → Type 0
  IsExpiry s w s' w' =
      ((s' ≡ s) × (w' ≡ w))
      ⊎ ((s.session.lease_deadline_us ≤ dev.time w)
          × (w' ≡ (expire_if_needed dev s w).2)
          × ((s' ≡ s) ⊎ IsClosed true s s'))

  -- The call failed and did no more than the expiry of the lease.
  abbrev pub IsDenied : Statics → W → EspErr × Statics × W → Type 0
  IsDenied s w r = (is_ok r.0 ≡ false) × IsExpiry s w r.1 r.2

  expire-IsExpiry :
      (s : Statics) (w : W) → IsExpiry s w (expire_if_needed dev s w).1 (expire_if_needed dev s w).2
  expire-IsExpiry s w = elim (expire-Spares dev s w) [
    | inl e ↦ inl (ap (λ (x : Bool × Statics × W). x.1) e, ap (λ (x : Bool × Statics × W). x.2) e)
    | inr l ↦ inr (l, refl, expire-same dev s w)
  ]

  is_live : (b c : Bool) → (b || not c) ≡ false → c ≡ true
  is_live b c h = ground arith

  mismatch :
      (t : List ℕ) (s : Statics) (w : W) (s1 : Statics) (w1 : W)
      → IsExpiry s w s1 w1
      → s1.active ≡ true
      → token_matches t s.session.session_token ≡ false
      → token_matches t s1.session.session_token ≡ false
  mismatch t s w s1 w1 x a h = elim (same x) [
    | inl e ↦ subst (λ x. token_matches t x.session.session_token ≡ false) (sym e) h
    | inr c ↦ absurd (true≢false (sym a ∙ c.inactive))
  ]
    where
      true≢false : true ≡ false → ⊥
      true≢false e = cc

      same : IsExpiry s w s1 w1 → (s1 ≡ s) ⊎ IsClosed true s s1
      same (inl (e, f)) = inl e
      same (inr (l, f, k)) = k

  not_failed : {A : Type 0} (b : Bool) → b ≡ false → not b ≡ false → A
  not_failed b h k = absurd (contradiction b h k)
    where
      contradiction : (b : Bool) → b ≡ false → not b ≡ false → ⊥
      contradiction true h k = cc
      contradiction false h k = cc

  stop_live-IsDenied :
      (t : List ℕ) (s : Statics) (w : W) (r : Bool × Statics × W)
      → IsExpiry s w r.1 r.2
      → token_matches t s.session.session_token ≡ false
      → IsDenied s w (stop_live dev t r)
  unfolding stop_live
  stop_live-IsDenied t s w (b, s1, w1) k h =
      if-otherwise (IsDenied s w) (b || not s1.active) (refl, k)
        (λ a.
          if-otherwise (IsDenied s w) (not (token_matches t s1.session.session_token)) (refl, k)
            (λ m.
              not_failed (token_matches t s1.session.session_token)
                (mismatch t s w s1 w1 k (is_live b s1.active a) h) m))

  patch_live-IsDenied :
      (t : List ℕ) (v : Option ℕ) (p : Option Bool) (s : Statics) (w : W) (r : Bool × Statics × W)
      → IsExpiry s w r.1 r.2
      → token_matches t s.session.session_token ≡ false
      → IsDenied s w (patch_live dev t v p r)
  unfolding patch_live
  patch_live-IsDenied t v p s w (b, s1, w1) k h =
      if-otherwise (IsDenied s w) (b || not s1.active) (refl, k)
        (λ a.
          if-otherwise (IsDenied s w) (not (token_matches t s1.session.session_token)) (refl, k)
            (λ m.
              not_failed (token_matches t s1.session.session_token)
                (mismatch t s w s1 w1 k (is_live b s1.active a) h) m))

  -- A stop or a patch whose token is not the session's fails, and changes neither the session nor a
  -- device, but that from the lease's deadline on it may first do what the expiry does: the devices
  -- are then as the expiry leaves them, and the session is kept or closed.
  pub stop-patch-IsDenied :
      (t : Option (List ℕ)) (v : Option ℕ) (p : Option Bool) (s : Statics) (w : W)
      → token_matches (text t) s.session.session_token ≡ false
      → IsDenied s w (stop dev t s w) × IsDenied s w (patch dev t v p s w)
  unfolding stop patch
  stop-patch-IsDenied t v p s w h = (
    if-both (IsDenied s w) (not s.initialized) (refl, inl (refl, refl))
        (if-both (IsDenied s w) (not (token_valid t)) (refl, inl (refl, refl))
          (stop_live-IsDenied (text t) s w (expire_if_needed dev s w) (expire-IsExpiry s w) h)),
    if-both (IsDenied s w) (not s.initialized) (refl, inl (refl, refl))
        (if-both (IsDenied s w) (not (token_valid t) || patch_refuses dev v p)
          (refl, inl (refl, refl))
          (patch_live-IsDenied (text t) v p s w (expire_if_needed dev s w) (expire-IsExpiry s w)
            h)),
  )
