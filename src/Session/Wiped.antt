-- ===== src/Session/Wiped.antt =====
-- The wiping of an inactive session in michi_session.c: the start, the lease and the task.
use michi_music_stream.Prelude.{
  ℕ, Bool, true, false, ◌&&◌, ◌||◌, not, Option, none, some, List, [], ◌∷◌, ltb, leb, ◌==◌, ◌≡◌,
  refl, ◌⊎◌, inl, inr, EspErr, if-both, sym, subst, length,
}
use michi_music_stream.StateMachine.{updating, state_code}
use michi_music_stream.Session.{Statics, StartParams, blank, Devices}
use michi_music_stream.Session.Params.{validate_params}
use michi_music_stream.Session.Lease.{
  bump, wipe, teardown, close_duties, expire_if_needed, reconcile_dead_engine, enforce_ops, poll,
  retry_close, rearm, watchdog_event, serve, watchdog_fires, queue_len,
}
use michi_music_stream.Session.Start.{
  roll_back, commit, establish, take_port, engine_started, launch, settle, replace_dead, admit,
  start_validated, start, token_len,
}
use michi_music_stream.Session.Closing.{teardown_lem, close_duties-statics}

abbrev pub IsWiped : Statics → Type 0
IsWiped s = (s.active ≡ true) ⊎ (s.session ≡ blank)

module _ {W : Type 0} (dev : Devices W) where
  pub teardown-IsWiped :
      (b : Bool) (s : Statics) (w : W) → IsWiped s → IsWiped (teardown dev b s w).1
  teardown-IsWiped b s w h = elim (teardown_lem dev b s w).1 [
    | inl (e, a, k) ↦ subst IsWiped (sym k) h
    | inr (u, c) ↦ inr c.wiped
  ]

  close_duties-IsWiped : (r : EspErr × Statics × W) → IsWiped r.1 → IsWiped (close_duties dev r).1
  close_duties-IsWiped r h = subst IsWiped (sym (close_duties-statics dev r).0) h

  -- The statics of a step's result.
  abbrev pub HasWiped : {A : Type 0} → A × Statics × W → Type 0
  HasWiped r = IsWiped r.1

  pub expire-IsWiped : (s : Statics) (w : W) → IsWiped s → HasWiped (expire_if_needed dev s w)
  unfolding expire_if_needed
  expire-IsWiped s w h =
      if-both HasWiped (not s.active || ltb (dev.time w) s.session.lease_deadline_us) h
        (close_duties-IsWiped (teardown dev true s w) (teardown-IsWiped true s w h))

  enforce-IsWiped : (s : Statics) (w : W) → IsWiped s → HasWiped (enforce_ops dev s w)
  unfolding enforce_ops
  enforce-IsWiped s w h =
      if-both HasWiped (not s.active || dev.playback_allowed w) h
        (close_duties-IsWiped (teardown dev false s w) (teardown-IsWiped false s w h))

  pub reconcile-IsWiped :
      (s : Statics) (w : W) → IsWiped s → HasWiped (reconcile_dead_engine dev s w)
  unfolding reconcile_dead_engine wipe
  reconcile-IsWiped s w h = if-both HasWiped (not s.active || dev.audio_active w) h (inr refl)

  abbrev pub FstWiped : Statics × W → Type 0
  FstWiped r = IsWiped r.0

  poll-IsWiped : (s : Statics) (w : W) → IsWiped s → FstWiped (poll dev s w)
  unfolding poll
  poll-IsWiped s w h =
      let e = enforce_ops dev s w in
      if-both FstWiped (e.1.active && leb e.1.session.lease_deadline_us (dev.time e.2))
        (expire-IsWiped e.1 e.2 (enforce-IsWiped s w h)) (enforce-IsWiped s w h)

  retry_close-IsWiped : (r : Bool × Statics × W) → HasWiped r → FstWiped (retry_close dev r)
  unfolding retry_close bump
  retry_close-IsWiped (b, s, w) h = if-both FstWiped (not b && s.active) h h

  watchdog_event-IsWiped :
      (g : ℕ) (s : Statics) (w : W) → IsWiped s → FstWiped (watchdog_event dev g s w)
  unfolding watchdog_event rearm bump
  watchdog_event-IsWiped g s w h =
      if-both FstWiped (not s.active || not (g == s.lease_generation)) h (
        if-both FstWiped (ltb (dev.time w) s.session.lease_deadline_us) h
          (retry_close-IsWiped (expire_if_needed dev s w) (expire-IsWiped s w h)))

  pub serve-IsWiped : (q : List ℕ) (s : Statics) (w : W) → IsWiped s → FstWiped (serve dev q s w)
  unfolding serve
  serve-IsWiped [] s w h = poll-IsWiped s w h
  serve-IsWiped (g ∷ rest) s w h = watchdog_event-IsWiped g (record s { watchdog_queue = rest }) w h

  pub watchdog_fires-IsWiped : (s : Statics) (w : W) → IsWiped s → FstWiped (watchdog_fires dev s w)
  unfolding watchdog_fires
  watchdog_fires-IsWiped s w h = if-both FstWiped (ltb (length s.watchdog_queue) queue_len) h h

  roll_back-IsWiped : (p : StartParams) (s : Statics) (w : W) → HasWiped (roll_back dev p s w)
  unfolding roll_back
  roll_back-IsWiped p s w = inr refl

  commit-IsWiped :
      (p : StartParams) (e : EspErr) (s : Statics) (w : W) → HasWiped (commit dev p e s w)
  unfolding commit roll_back
  commit-IsWiped p EspErr.ok s w = inl refl
  commit-IsWiped p e s w = inr refl

  take_port-IsWiped :
      (p : StartParams) (o : Option ℕ) (s : Statics) (w : W) → HasWiped (take_port dev p o s w)
  unfolding take_port establish
  take_port-IsWiped p none s w = roll_back-IsWiped p s w
  take_port-IsWiped p (some n) s w = commit-IsWiped p _ _ _

  engine_started-IsWiped :
      (p : StartParams) (e : EspErr) (s : Statics) (w : W) → HasWiped (engine_started dev p e s w)
  unfolding engine_started
  engine_started-IsWiped p EspErr.ok s w = take_port-IsWiped p (dev.audio_port w) s w
  engine_started-IsWiped p e s w = inr refl

  settle-IsWiped : (p : StartParams) (s : Statics) (w : W) → IsWiped s → HasWiped (settle dev p s w)
  unfolding settle launch
  settle-IsWiped p s w h =
      if-both HasWiped (not s.startup_cleanup_pending) (engine_started-IsWiped p _ _ _) (
        if-both HasWiped (dev.audio_active (dev.audio_stop w).1) h (engine_started-IsWiped p _ _ _))

  replace_dead-IsWiped :
      (p : StartParams) (r : Bool × Statics × W) → HasWiped r → HasWiped (replace_dead dev p r)
  unfolding replace_dead
  replace_dead-IsWiped p (true, s, w) h = settle-IsWiped p s w h
  replace_dead-IsWiped p (false, s, w) h = h

  admit-IsWiped : (p : StartParams) (s : Statics) (w : W) → IsWiped s → HasWiped (admit dev p s w)
  unfolding admit
  admit-IsWiped p s w h =
      if-both HasWiped s.active
        (replace_dead-IsWiped p (reconcile_dead_engine dev s w) (reconcile-IsWiped s w h))
        (settle-IsWiped p s w h)

  start_validated-IsWiped :
      (p : StartParams) (e : EspErr) (s : Statics) (w : W)
      → IsWiped s
      → HasWiped (start_validated dev p e s w)
  unfolding start_validated
  start_validated-IsWiped p EspErr.ok s w h = if-both HasWiped (not (dev.playback_allowed w)) h (
      if-both HasWiped (dev.ota_busy w || state_code (dev.state_get w) == state_code updating) h (
        admit-IsWiped p (expire_if_needed dev s w).1 (expire_if_needed dev s w).2
          (expire-IsWiped s w h)))
  start_validated-IsWiped p e s w h = h

  pub start-IsWiped :
      (p : StartParams) (n : ℕ) (s : Statics) (w : W) → IsWiped s → HasWiped (start dev p n s w)
  unfolding start
  start-IsWiped p n s w h =
      if-both HasWiped (not s.initialized) h
        (if-both HasWiped (ltb n token_len) h (start_validated-IsWiped p (validate_params p) s w h))
