-- ===== src/Session/WipedCalls.antt =====
-- The wiping of an inactive session in michi_session.c: stop, abort, patch, get_info and active.
use michi_music_stream.Prelude.{
  ℕ, Bool, true, false, ◌||◌, not, Option, none, some, List, eqb, ◌≡◌, ◌∙◌, refl, inl, EspErr,
  if-both, if-otherwise,
}
use michi_music_stream.Session.{Statics, Devices}
use michi_music_stream.Session.Text.{token_valid, token_matches}
use michi_music_stream.Session.Lease.{teardown, expire_if_needed, reconcile_dead_engine}
use michi_music_stream.Session.Calls.{
  text, set_volume, set_paused, close_answer, stop_live, stop, abort_live, abort, patch_volume,
  patch_paused, patch_admitted, patch_live, patch_refuses, patch,
}
use michi_music_stream.Session.Queries.{describe, get_info_live, get_info, active}
use michi_music_stream.Session.Wiped.{IsWiped, teardown-IsWiped, expire-IsWiped, reconcile-IsWiped}

module _ {W : Type 0} (dev : Devices W) where
  abbrev Has : {A : Type 0} → A × Statics × W → Type 0
  Has r = IsWiped r.1

  close_answer-IsWiped : (r : EspErr × Statics × W) → Has r → Has (close_answer dev r)
  unfolding close_answer
  close_answer-IsWiped (EspErr.ok, s, w) h = h
  close_answer-IsWiped (e, s, w) h = h

  stop_live-IsWiped : (t : List ℕ) (r : Bool × Statics × W) → Has r → Has (stop_live dev t r)
  unfolding stop_live
  stop_live-IsWiped t (b, s, w) h = if-both Has (b || not s.active) h (
      if-both Has (not (token_matches t s.session.session_token)) h
        (close_answer-IsWiped (teardown dev false s w) (teardown-IsWiped dev false s w h)))

  pub stop-IsWiped : (t : Option (List ℕ)) (s : Statics) (w : W) → IsWiped s → Has (stop dev t s w)
  unfolding stop
  stop-IsWiped t s w h = if-both Has (not s.initialized) h (
      if-both Has (not (token_valid t)) h
        (stop_live-IsWiped (text t) (expire_if_needed dev s w) (expire-IsWiped dev s w h)))

  abort_live-IsWiped : (r : Bool × Statics × W) → Has r → Has (abort_live dev r)
  unfolding abort_live
  abort_live-IsWiped (b, s, w) h =
      if-both Has (b || not s.active) h
        (close_answer-IsWiped (teardown dev false s w) (teardown-IsWiped dev false s w h))

  pub abort-IsWiped : (s : Statics) (w : W) → IsWiped s → Has (abort dev s w)
  unfolding abort
  abort-IsWiped s w h =
      if-both Has (not s.initialized) h
        (abort_live-IsWiped (expire_if_needed dev s w) (expire-IsWiped dev s w h))

  patch_volume-active :
      (v : Option ℕ) (s : Statics) (w : W) → (patch_volume dev v s w).0.active ≡ s.active
  unfolding patch_volume set_volume
  patch_volume-active none s w = refl
  patch_volume-active (some v) s w = refl

  abbrev ActiveAs : Bool → {A : Type 0} → A × Statics × W → Type 0
  ActiveAs b r = r.1.active ≡ b

  patch_paused-active :
      (e : EspErr) (b : Bool) (v : Option ℕ) (s : Statics) (w : W)
      → (patch_paused dev e b v s w).1.active ≡ s.active
  unfolding patch_paused set_paused
  patch_paused-active EspErr.ok b v s w = patch_volume-active v (set_paused b s) w
  patch_paused-active e b v s w = refl

  patch_admitted-active :
      (v : Option ℕ) (p : Option Bool) (s : Statics) (w : W)
      → (patch_admitted dev v p s w).1.active ≡ s.active
  unfolding patch_admitted
  patch_admitted-active v none s w = patch_volume-active v s w
  patch_admitted-active v (some b) s w =
      if-both (ActiveAs s.active) (eqb b s.session.info.paused) (patch_volume-active v s w)
        (patch_paused-active _ b v s _)

  pub is_live : (b c : Bool) → (b || not c) ≡ false → c ≡ true
  is_live false true e = refl
  is_live b c e = cc

  patch_live-IsWiped :
      (t : List ℕ) (v : Option ℕ) (p : Option Bool) (r : Bool × Statics × W)
      → Has r
      → Has (patch_live dev t v p r)
  unfolding patch_live
  patch_live-IsWiped t v p (b, s, w) h = if-otherwise Has (b || not s.active) h (λ e.
      if-both Has (not (token_matches t s.session.session_token)) h
        (inl (patch_admitted-active v p s w ∙ is_live b s.active e)))

  pub patch-IsWiped :
      (t : Option (List ℕ)) (v : Option ℕ) (p : Option Bool) (s : Statics) (w : W)
      → IsWiped s
      → Has (patch dev t v p s w)
  unfolding patch
  patch-IsWiped t v p s w h = if-both Has (not s.initialized) h (
      if-both Has (not (token_valid t) || patch_refuses dev v p) h
        (patch_live-IsWiped (text t) v p (expire_if_needed dev s w) (expire-IsWiped dev s w h)))

  describe-IsWiped : (r : Bool × Statics × W) → Has r → Has (describe dev r)
  unfolding describe
  describe-IsWiped (true, s, w) h = h
  describe-IsWiped (false, s, w) h = h

  get_info_live-IsWiped : (r : Bool × Statics × W) → Has r → Has (get_info_live dev r)
  unfolding get_info_live
  get_info_live-IsWiped (b, s, w) h =
      if-both Has (b || not s.active) h
        (describe-IsWiped (reconcile_dead_engine dev s w) (reconcile-IsWiped dev s w h))

  pub get_info-IsWiped : (s : Statics) (w : W) → IsWiped s → Has (get_info dev s w)
  unfolding get_info
  get_info-IsWiped s w h =
      if-both Has (not s.initialized) h
        (get_info_live-IsWiped (expire_if_needed dev s w) (expire-IsWiped dev s w h))

  pub active-IsWiped : (s : Statics) (w : W) → IsWiped s → Has (active dev s w)
  unfolding active
  active-IsWiped s w h = if-both Has (not s.initialized) h (
      reconcile-IsWiped dev (expire_if_needed dev s w).1 (expire_if_needed dev s w).2
        (expire-IsWiped dev s w h))
