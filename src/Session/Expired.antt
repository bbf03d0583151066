-- ===== src/Session/Expired.antt =====
-- A heartbeat in michi_session.c after the lease's deadline, while the engine does not stop.
use michi_music_stream.Prelude.{
  ℕ, ◌+◌, ◌≤◌, true, false, some, List, ltb, ◌≡◌, refl, EspErr, str_eq_refl, arith,
}
use michi_music_stream.Session.{stopping, Statics, Devices}
use michi_music_stream.Session.Text.{token_valid, token_matches}
use michi_music_stream.Session.Lease.{
  bump, set_state, teardown, close_duties, expire_if_needed, reconcile_dead_engine,
}
use michi_music_stream.Session.Start.{lease_us}
use michi_music_stream.Session.Queries.{
  HeartbeatResult, is_replay, wrong_peer, renew, renewed, heartbeat_live, find_session, heartbeat,
}

restored : (s : Statics) → set_state s.session.info.state (set_state stopping s) ≡ s
unfolding set_state
restored s = refl

module _ {W : Type 0} (dev : Devices W) where
  -- The engine refuses to stop and runs on, and the timer can be restarted.
  pub record IsStuck (w : W) : Type 0 where
    pub stop_fails : (dev.audio_stop w).0 ≡ EspErr.timeout
    pub runs_on : dev.audio_active (dev.audio_stop w).1 ≡ true
    pub restarts : (dev.timer_restart lease_us (dev.audio_stop w).1).0 ≡ EspErr.ok

  -- The heartbeat went well, and the session lives for 30 s from the time after it.
  abbrev pub RenewsTo : ℕ → HeartbeatResult × Statics × W → Type 0
  RenewsTo n r =
      (r.0 ≡ HeartbeatResult.ok)
      × (r.1.active ≡ true)
      × (r.1.session.lease_deadline_us ≡ dev.time r.2 + 30000000)
      × (r.1.session.last_heartbeat_seq ≡ n)

  expire-stuck :
      (s : Statics) (w : W)
      → IsStuck w
      → s.active ≡ true
      → ltb (dev.time w) s.session.lease_deadline_us ≡ false
      → expire_if_needed dev s w ≡ (false, s, (dev.audio_stop w).1)
  unfolding expire_if_needed teardown close_duties
  expire-stuck s w k a h = simp (a, h, k.stop_fails, k.runs_on, restored s)

  -- A heartbeat after the lease's deadline is accepted and renews the expired lease, where the
  -- engine neither stops nor ends and the heartbeat is otherwise in order: the session stays active
  -- and its lease ends 30 s after the call.
  pub heartbeat-accepts_expired :
      (token : List ℕ) (n : ℕ) (s : Statics) (w : W)
      → s.initialized ≡ true
      → s.active ≡ true
      → s.session.lease_deadline_us ≤ dev.time w
      → IsStuck w
      → token_valid (some token) ≡ true
      → token_matches token s.session.session_token ≡ true
      → wrong_peer (some s.session.info.source_addr) s.session ≡ false
      → is_replay n s.session ≡ false
      → RenewsTo n (
          heartbeat dev
            (some token)
            (some s.session.info.session_id)
            n
            (some s.session.info.source_addr)
            s
            w)
  unfolding heartbeat find_session reconcile_dead_engine heartbeat_live renewed renew bump
  heartbeat-accepts_expired token n s w i a l k v m p r =
      simp
        (
          i,
          v,
          expire-stuck s w k a (late (dev.time w) s.session.lease_deadline_us l),
          a,
          k.runs_on,
          m,
          str_eq_refl s.session.info.session_id,
          p,
          r,
          k.restarts,
        )
        (refl, refl, refl, refl)
    where
      late : (x y : ℕ) → y ≤ x → ltb x y ≡ false
      late x y l = ground arith
