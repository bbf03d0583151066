-- ===== src/Engine/Task.antt =====
-- The loop of `session_task` in michi_audio.c, with the action and the interruption test of
-- michi_audio_pause_policy.h. One turn of the loop is a function; `run_task` takes turns until one
-- leaves the loop.
pub mod Window
pub mod Session
use michi_music_stream.Prelude.{
  ℕ, zero, suc, ◌+◌, ◌-◌, ◌%◌, ◌^◌, Bool, true, false, not, ◌&&◌, ◌||◌, Option, none, some, List,
  [], ltb, leb, ◌==◌, if◌then◌else◌,
}
use michi_music_stream.Rtp.Distance.{offset}
use michi_music_stream.Rtp.BufferPolicy.{recovery_deadline_ms}
use michi_music_stream.JitterBuffer.{Slot, flush, oldest}
use michi_music_stream.Engine.{Metrics, Stream, Engine, add32, metrics_live}
use michi_music_stream.Engine.Recv.{Input, session_recv}
use michi_music_stream.Engine.Playback.{
  Player, FillRound, session_fill, write_silence, drop_stale, count_skipped, session_drain,
}

-- What the task reads and calls: the player, the receive, the flags, the turns that a fill has before
-- its deadline, and the error report.
pub record World (W : Type 0) : Type 0 where
  pub player : Player W
  pub receive : W → Input × W
  pub paused : W → Bool × W
  pub quiesced : W → Bool × W
  pub fill_rounds : W → List FillRound × W
  pub now_ms : W → ℕ × W
  pub post_error : W → W

-- MICHI_AUDIO_MAX_PACKETS and CONFIG_MICHI_AUDIO_PREFILL_MS.
pub record Limits : Type 0 where
  pub max_packets : ℕ
  pub prefill_ms : ℕ

-- `michi_audio_worker_action_t`.
pub data Action : Type 0 where
  stop pause play : Action

unfoldable pub next_action : Bool → Bool → Action
next_action running paused = if not running then stop else if paused then pause else play

unfoldable pub pause_interrupted : Bool → Bool → Bool → Bool
pause_interrupted running paused quiesced = running && (paused && quiesced)

-- MICHI_AUDIO_PREFILL_DEADLINE_MS.
abbrev pub prefill_deadline_ms : ℕ
prefill_deadline_ms = 1000

-- The task between two turns: its state, `was_paused` and `self_end`.
pub record Task : Type 0 where
  pub engine : Engine
  pub was_paused : Bool
  pub self_end : Bool

-- Whether the loop goes on, and the states after the turn.
abbrev pub Turn : Type 0 → Type 0
Turn W = Bool × Task × W

-- A flush and the live figures.
flushed : Engine → Engine
flushed e =
    let s = record e.stream { jb = flush e.stream.jb } in
    record e { stream = s; metrics = metrics_live s e.metrics }

module _ {W : Type 0} (world : World W) (limits : Limits) where
  pub fill_until : ℕ → Engine → W → Engine × W
  fill_until deadline_ms e w =
      let (start_ms, w1) = world.now_ms w in
      let (rounds, w2) = world.fill_rounds w1 in
      (session_fill limits.max_packets limits.prefill_ms deadline_ms start_ms rounds e, w2)

  -- A write that the pipeline refused: a stop, a pause that won the race, or the end of the session.
  interrupted : Engine → W → Turn W
  unfolding flushed pause_interrupted
  interrupted e w =
      let (on, w1) = world.player.session_run w in
      let (still_on, w2) = world.player.session_run w1 in
      let (held, w3) = world.paused w2 in
      let (silent, w4) = world.quiesced w3 in
      if not (on && e.run)
      then (false, record { engine = e; was_paused = false; self_end = false }, w1)
      else if pause_interrupted still_on held silent
      then (true, record { engine = flushed e; was_paused = true; self_end = false }, w4)
      else (
        false,
        record { engine = record e { run = false }; was_paused = false; self_end = true },
        world.post_error w4,
      )

  paused_turn : Engine → W → Turn W
  paused_turn e w =
      let s = e.stream in
      let s' = if ltb 0 s.jb.count then record s { jb = flush s.jb } else s in
      (true, record { engine = record e { stream = s' }; was_paused = true; self_end = false }, w)

  resumed : Engine → Engine
  resumed e =
      let s = record e.stream {
        jb = flush e.stream.jb;
        stream_seeded = false;
        last_played_ts = 0;
        in_underrun = false;
      } in
      record e {
        stream = s;
        metrics = metrics_live s (record e.metrics { provisionally_missing = 0 });
      }

  resumed_turn : Engine → W → Turn W
  unfolding fill_until resumed
  resumed_turn e w =
      let (e', w') = fill_until prefill_deadline_ms (resumed e) w in
      (true, record { engine = e'; was_paused = false; self_end = false }, w')

  -- The playhead after an underrun: at the oldest packet, with no silence for the gap.
  resync : Option Slot → Stream → Metrics → Stream × Metrics
  resync none s m = (record s { in_underrun = false }, m)
  resync (some x) s m = (
    record s { playhead = x.entry.seq; last_played_ts = 0; in_underrun = false },
    if x.entry.seq == s.playhead then m else count_skipped (offset x.entry.seq s.playhead) m,
  )

  recovered : Engine → Engine
  unfolding resync
  recovered e =
      let (s, m) = drop_stale e.stream e.metrics in
      let (s', m') = resync (oldest s.jb s.playhead) s m in
      if ltb 0 s.jb.count
      then record e { stream = s'; metrics = m' }
      else record e { stream = s; metrics = m }

  counted_underrun : Engine → Engine
  counted_underrun e = if e.stream.in_underrun then e else record e {
    stream = record e.stream { in_underrun = true };
    metrics = record e.metrics { underruns = add32 e.metrics.underruns 1 };
  }

  refill : Engine → W → Turn W
  unfolding fill_until recovered
  refill e w =
      let (e1, w1) = fill_until (recovery_deadline_ms e.stream.buffer_ms) e w in
      let (on, w2) = world.player.session_run w1 in
      if on && e1.run
      then (true, record { engine = recovered e1; was_paused = false; self_end = false }, w2)
      else (false, record { engine = e1; was_paused = false; self_end = false }, w2)

  underrun : Engine → W → Turn W
  unfolding counted_underrun interrupted refill
  underrun e w =
      let e1 = counted_underrun e in
      let (ok, w1) = write_silence world.player e1.stream e1.stream.samples_per_packet w in
      if ok then refill e1 w1 else interrupted e1 w1

  play_turn : Engine → W → Turn W
  unfolding interrupted underrun
  play_turn e w =
      let (ok, s, m, w1) = session_drain world.player limits.max_packets e.stream e.metrics w in
      let e1 = record e { stream = s; metrics = m } in
      if not ok
      then interrupted e1 w1
      else if s.stream_seeded && s.jb.count == 0
      then underrun e1 w1
      else (true, record { engine = e1; was_paused = false; self_end = false }, w1)

  act : Action → Bool → Engine → W → Turn W
  unfolding paused_turn resumed_turn play_turn
  act stop was_paused e w =
      (false, record { engine = e; was_paused = was_paused; self_end = false }, w)
  act pause was_paused e w = paused_turn e w
  act play was_paused e w = if was_paused then resumed_turn e w else play_turn e w

  turn_after_receive : Task → W → Turn W
  unfolding act next_action
  turn_after_receive t w =
      let (i, w1) = world.receive w in
      let e = session_recv limits.max_packets i t.engine in
      let (on, w2) = world.player.session_run w1 in
      let (held, w3) = world.paused w2 in act (next_action (on && e.run) held) t.was_paused e w3

  -- One turn of the loop, from its test on.
  unfoldable pub task_turn : Task → W → Turn W
  unfolding turn_after_receive
  task_turn t w =
      let (on, w1) = world.player.session_run w in
      if on && t.engine.run then turn_after_receive t w1 else (false, t, w1)

  -- At most `n` turns.
  unfoldable pub run_task : ℕ → Task → W → Task × W
  run_task zero t w = (t, w)
  run_task (suc n) t w =
      let (on, t', w') = task_turn t w in
      let rest = run_task n t' w' in if on then rest else (t', w')

  -- From the start of the task to its loop: the prefill, unless a stop came first. The answer is
  -- whether the loop is entered.
  unfoldable pub task_start : Engine → W → Turn W
  unfolding fill_until
  task_start e w =
      let (on, w1) = world.player.session_run w in
      let (e1, w2) = fill_until prefill_deadline_ms e w1 in
      let (still_on, w3) = world.player.session_run w2 in
      if on && e.run
      then (still_on && e1.run, record { engine = e1; was_paused = false; self_end = false }, w3)
      else (false, record { engine = e; was_paused = false; self_end = false }, w1)

  -- The end of the task: a fatal receive error is reported, and a session that ended by itself is
  -- stopped.
  unfoldable pub task_exit : Task → W → Task × W
  task_exit t w =
      let ended = t.self_end || t.engine.stream.fatal_recv_error in
      (
        record t {
          engine = if ended then record t.engine { run = false } else t.engine;
          self_end = ended;
        },
        if t.engine.stream.fatal_recv_error then world.post_error w else w,
      )

  -- `session_task` with at most `n` turns of its loop.
  unfoldable pub session_task : ℕ → Engine → W → Task × W
  session_task n e w =
      let (on, t, w1) = task_start e w in
      let (t', w2) = run_task n t w1 in if on then task_exit t' w2 else task_exit t w1
