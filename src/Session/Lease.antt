-- ===== src/Session/Lease.antt =====
-- The closing of a session in michi_session.c: the teardown, the dead-engine and lease
-- reconciliations, the playback restriction, the watchdog's callback and the session task.
use michi_music_stream.Prelude.{
  ℕ, ◌+◌, ◌-◌, ◌%◌, ◌^◌, Bool, true, false, ◌&&◌, ◌||◌, not, List, [], ◌∷◌, ◌++◌, ltb, leb,
  if◌then◌else◌, ◌==◌, length, EspErr, is_ok,
}
use michi_music_stream.StateMachine.{State, idle, session_pending, buffering}
use michi_music_stream.StateMachine.Event.{session_started, session_closed}
use michi_music_stream.Session.{SessionState, stopping, Statics, blank, Devices}

-- The counter `s_lease_generation++`.
unfoldable pub bump : Statics → Statics
bump s = record s { lease_generation = (s.lease_generation + 1) % 2 ^ 32 }

unfoldable pub set_state : SessionState → Statics → Statics
set_state st s = record s {
  session = record s.session { info = record s.session.info { state = st } };
}

-- The session's record and its credential are gone.
unfoldable pub wipe : Statics → Statics
unfolding bump
wipe s = record (bump s) { active = false; session = blank }

unfoldable pub count_expiry : Bool → Statics → Statics
count_expiry by_lease s =
    if by_lease then record s { lease_expirations = (s.lease_expirations + 1) % 2 ^ 32 } else s

abbrev pub retry_us : ℕ
retry_us = 1000000

abbrev pub queue_len : ℕ
queue_len = 10

-- `lease_watchdog_cb`, `session_teardown_locked` and the rest, over the devices.
module _ {W : Type 0} (dev : Devices W) where
  unfoldable pub post_event : ℕ → W → W
  post_event id w = (dev.state_post id w).1

  unfoldable pub finish_close : Bool → EspErr → Statics → W → EspErr × Statics × W
  finish_close by_lease err s w =
      let w1 = (dev.display_clear (dev.timer_stop w)).1 in
      (err, count_expiry by_lease (wipe s), if is_ok err then w1 else post_event session_closed w1)

  unfoldable pub teardown : Bool → Statics → W → EspErr × Statics × W
  teardown by_lease s w =
      let prev = s.session.info.state in
      let s1 = set_state stopping s in
      let (err, w1) = dev.audio_stop w in
      if not (is_ok err) && dev.audio_active w1
      then (err, set_state prev s1, w1)
      else finish_close by_lease err s1 w1

  unfoldable pub reconcile_dead_engine : Statics → W → Bool × Statics × W
  reconcile_dead_engine s w =
      if not s.active || dev.audio_active w
      then (false, s, w)
      else (true, wipe s, post_event session_closed (dev.display_clear (dev.timer_stop w)).1)

  -- The duties after a teardown that went well.
  unfoldable pub close_duties : EspErr × Statics × W → Bool × Statics × W
  close_duties (EspErr.ok, s, w) = (true, s, post_event session_closed w)
  close_duties (e, s, w) = (false, s, w)

  unfoldable pub expire_if_needed : Statics → W → Bool × Statics × W
  expire_if_needed s w =
      if not s.active || ltb (dev.time w) s.session.lease_deadline_us
      then (false, s, w)
      else close_duties (teardown true s w)

  unfoldable pub enforce_ops : Statics → W → Bool × Statics × W
  enforce_ops s w =
      if not s.active || dev.playback_allowed w
      then (false, s, w)
      else close_duties (teardown false s w)

  -- `lease_watchdog_cb`.
  unfoldable pub watchdog_fires : Statics → W → Statics × W
  watchdog_fires s w =
      if ltb (length s.watchdog_queue) queue_len
      then (record s { watchdog_queue = s.watchdog_queue ++ s.lease_generation ∷ [] }, w)
      else (s, (dev.timer_start retry_us w).1)

  -- A round of the task that received nothing.
  unfoldable pub poll : Statics → W → Statics × W
  poll s0 w0 =
      let (enforced, s, w) = enforce_ops s0 w0 in
      let (expired, s', w') = expire_if_needed s w in
      if s.active && leb s.session.lease_deadline_us (dev.time w) then (s', w') else (s, w)

  unfoldable pub retry_close : Bool × Statics × W → Statics × W
  retry_close (expired, s, w) =
      if not expired && s.active then (bump s, (dev.timer_start retry_us w).1) else (s, w)

  unfoldable pub rearm : Statics → W → Statics × W
  rearm s w = (bump s, (dev.timer_start (s.session.lease_deadline_us - dev.time w) w).1)

  -- A round of the task that received a generation.
  unfoldable pub watchdog_event : ℕ → Statics → W → Statics × W
  watchdog_event generation s w =
      if not s.active || not (generation == s.lease_generation)
      then (s, w)
      else if ltb (dev.time w) s.session.lease_deadline_us
      then rearm s w
      else retry_close (expire_if_needed s w)

  unfoldable pub serve : List ℕ → Statics → W → Statics × W
  serve [] s w = poll s w
  serve (g ∷ rest) s w = watchdog_event g (record s { watchdog_queue = rest }) w

  -- One round of `session_task_func`.
  unfoldable pub task_round : Statics → W → Statics × W
  task_round s w = serve s.watchdog_queue s w

  unfoldable pub repost_chain : State → W → W
  repost_chain idle w =
      post_event session_started (post_event session_started (post_event session_started w))
  repost_chain session_pending w = post_event session_started (post_event session_started w)
  repost_chain buffering w = post_event session_started w
  repost_chain st w = w

  -- `session_reconcile_fsm`: a state outside the session chain is left as it is.
  unfoldable pub reconcile_fsm : W → W
  reconcile_fsm w = repost_chain (dev.state_get w) w
