-- ===== src/Session/Histories.antt =====
-- The wiping of an inactive session in michi_session.c: the other calls, and any history of calls.
use michi_music_stream.Prelude.{
  ℕ, Bool, true, false, ◌||◌, not, Option, List, [], ◌∷◌, leb, ◌==◌, ◌≡◌, refl, ◌⊎◌, inl, inr,
  EspErr, if-both, if-otherwise, str_eq,
}
use michi_music_stream.Session.{Statics, Devices}
use michi_music_stream.Session.Text.{token_valid, token_matches}
use michi_music_stream.Session.Lease.{bump, expire_if_needed, reconcile_dead_engine, task_round}
use michi_music_stream.Session.Calls.{text, is_null}
use michi_music_stream.Session.Queries.{
  renew, is_replay, wrong_peer, renewed, heartbeat_live, find_session, heartbeat, displayed,
  NowPlaying, lacks_text, now_playing_live, set_now_playing,
}
use michi_music_stream.Session.Wiped.{
  IsWiped, expire-IsWiped, reconcile-IsWiped, serve-IsWiped, watchdog_fires-IsWiped, start-IsWiped,
}
use michi_music_stream.Session.Trace.{
  Call, starts, stops, aborts, queries, asks_active, fires, rounds, patches, beats, announces,
  after_call, run_calls,
}
use michi_music_stream.Session.WipedCalls.{
  is_live, stop-IsWiped, abort-IsWiped, patch-IsWiped, get_info-IsWiped, active-IsWiped,
}

module _ {W : Type 0} (dev : Devices W) where
  abbrev Has : {A : Type 0} → A × Statics × W → Type 0
  Has r = IsWiped r.1

  find_session-IsWiped : (r : Bool × Statics × W) → Has r → Has (find_session dev r)
  unfolding find_session
  find_session-IsWiped (b, s, w) h = if-both Has (b || not s.active) h (reconcile-IsWiped dev s w h)

  -- A session that was found is active.
  abbrev FoundActive : Bool × Statics × W → Type 0
  FoundActive r = (r.0 ≡ true) ⊎ (r.1.active ≡ true)

  find_session-FoundActive : (r : Bool × Statics × W) → FoundActive (find_session dev r)
  unfolding find_session reconcile_dead_engine
  find_session-FoundActive (b, s, w) = if-otherwise FoundActive (b || not s.active) (inl refl) (λ e.
      if-both FoundActive (not s.active || dev.audio_active w) (inr (is_live dev b s.active e))
        (inl refl))

  renewed-IsWiped :
      (e : EspErr) (n : ℕ) (s : Statics) (w : W) → s.active ≡ true → Has (renewed dev e n s w)
  unfolding renewed renew bump
  renewed-IsWiped EspErr.ok n s w h = inl h
  renewed-IsWiped e n s w h = inl h

  heartbeat_live-IsWiped :
      (t id : List ℕ) (n : ℕ) (peer : Option (List ℕ)) (r : Bool × Statics × W)
      → Has r
      → FoundActive r
      → Has (heartbeat_live dev t id n peer r)
  unfolding heartbeat_live
  heartbeat_live-IsWiped t id n peer (true, s, w) h a = h
  heartbeat_live-IsWiped t id n peer (false, s, w) h (inl a) = cc
  heartbeat_live-IsWiped t id n peer (false, s, w) h (inr a) =
      if-both Has (not (token_matches t s.session.session_token)) h (
        if-both Has (not (str_eq id s.session.info.session_id)) h (
          if-both Has (wrong_peer peer s.session) h
            (if-both Has (is_replay n s.session) h (renewed-IsWiped _ n s _ a))))

  heartbeat-IsWiped :
      (t id : Option (List ℕ)) (n : ℕ) (peer : Option (List ℕ)) (s : Statics) (w : W)
      → IsWiped s
      → Has (heartbeat dev t id n peer s w)
  unfolding heartbeat
  heartbeat-IsWiped t id n peer s w h = if-both Has (not s.initialized) h (
      if-both Has (not (token_valid t)) h (
        if-both Has (is_null id) h (
          heartbeat_live-IsWiped (text t) (text id) n peer
            (find_session dev (expire_if_needed dev s w))
            (find_session-IsWiped (expire_if_needed dev s w) (expire-IsWiped dev s w h))
            (find_session-FoundActive (expire_if_needed dev s w)))))

  displayed-IsWiped :
      (e : EspErr) (n : ℕ) (s : Statics) (w : W) → s.active ≡ true → Has (displayed dev e n s w)
  unfolding displayed
  displayed-IsWiped EspErr.ok n s w h = inl h
  displayed-IsWiped e n s w h = inl h

  now_playing_live-IsWiped :
      (n : NowPlaying) (r : Bool × Statics × W)
      → Has r
      → FoundActive r
      → Has (now_playing_live dev n r)
  unfolding now_playing_live
  now_playing_live-IsWiped n (true, s, w) h a = h
  now_playing_live-IsWiped n (false, s, w) h (inl a) = cc
  now_playing_live-IsWiped n (false, s, w) h (inr a) =
      if-both Has (not (str_eq (text n.session_id) s.session.info.session_id)) h (
        if-both Has (not (token_matches (text n.session_token) s.session.session_token)) h (
          if-both Has (not (str_eq (text n.controller_id) s.session.info.owner_controller_id)) h (
            if-both Has
              (n.metadata_revision == 0 || leb n.metadata_revision s.session.last_metadata_revision)
              h (displayed-IsWiped _ n.metadata_revision s _ a))))

  set_now_playing-IsWiped :
      (n : NowPlaying) (s : Statics) (w : W) → IsWiped s → Has (set_now_playing dev n s w)
  unfolding set_now_playing
  set_now_playing-IsWiped n s w h = if-both Has (not s.initialized) h (
      if-both Has (not (token_valid n.session_token) || lacks_text n) h (
        now_playing_live-IsWiped n (find_session dev (expire_if_needed dev s w))
          (find_session-IsWiped (expire_if_needed dev s w) (expire-IsWiped dev s w h))
          (find_session-FoundActive (expire_if_needed dev s w))))

  after_call-IsWiped : (c : Call) (s : Statics) (w : W) → IsWiped s → IsWiped (after_call dev c s w)
  unfolding after_call task_round
  after_call-IsWiped (starts p n) s w h = start-IsWiped dev p n s w h
  after_call-IsWiped (stops t) s w h = stop-IsWiped dev t s w h
  after_call-IsWiped aborts s w h = abort-IsWiped dev s w h
  after_call-IsWiped queries s w h = get_info-IsWiped dev s w h
  after_call-IsWiped asks_active s w h = active-IsWiped dev s w h
  after_call-IsWiped fires s w h = watchdog_fires-IsWiped dev s w h
  after_call-IsWiped rounds s w h = serve-IsWiped dev s.watchdog_queue s w h
  after_call-IsWiped (patches t v p) s w h = patch-IsWiped dev t v p s w h
  after_call-IsWiped (beats t id n peer) s w h = heartbeat-IsWiped t id n peer s w h
  after_call-IsWiped (announces n) s w h = set_now_playing-IsWiped n s w h

  -- No credential outlives its session: over any history of calls, timer firings and task rounds,
  -- against devices in any condition, the session is active or its record, token included, is all
  -- zeros, if it was so before.
  pub run_calls-IsWiped :
      (cs : List (Call × W)) (s : Statics) → IsWiped s → IsWiped (run_calls dev cs s)
  unfolding run_calls
  run_calls-IsWiped [] s h = h
  run_calls-IsWiped ((c, w) ∷ cs) s h =
      run_calls-IsWiped cs (after_call dev c s w) (after_call-IsWiped c s w h)
