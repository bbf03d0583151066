-- ===== src/Engine/Task/Window.antt =====
-- Over the life of a session the packets held lie in the window of the playhead.
use michi_music_stream.Prelude.{
  ℕ, zero, suc, ◌+◌, ◌^◌, ◌<◌, ◌≡◌, refl, sym, ap, subst, ◌∙◌, ◌-◌, ◌%◌, Bool, true, false, not,
  ◌&&◌, ◌||◌, Option, none, some, List, [], ◌∷◌, ltb, leb, ◌==◌, if-both, All,
}
use michi_music_stream.Rtp.BufferPolicy.{recovery_deadline_ms}
use michi_music_stream.JitterBuffer.{Entry, Jb, Slot, oldest, flush}
use michi_music_stream.JitterBuffer.Holds.{flush-valid}
use michi_music_stream.JitterBuffer.Valid.{IsValid, packet}
use michi_music_stream.Engine.{Metrics, Stream, Engine}
use michi_music_stream.Engine.Policy.Window.{InWindow}
use michi_music_stream.Engine.Recv.{session_recv}
use michi_music_stream.Engine.Recv.Window.{GivesBytes, session_recv-InWindow}
use michi_music_stream.Engine.Playback.{
  FillRound, target_packets, session_fill, write_silence, drop_stale, session_drain,
}
use michi_music_stream.Engine.Playback.Window.{
  oldest-Picked, moved-InWindow, drop_stale-InWindow, session_drain-InWindow,
}
use michi_music_stream.Engine.Task.{
  World, Limits, Action, stop, pause, play, Task, Turn, flushed, fill_until, interrupted,
  paused_turn, resumed, resumed_turn, resync, recovered, counted_underrun, refill, underrun,
  play_turn, act, pause_interrupted, turn_after_receive, task_turn, run_task,
}

session_fill-InWindow :
    (max_packets prefill_ms deadline_ms start_ms : ℕ) (rounds : List FillRound) (e : Engine)
    → max_packets < 32768
    → All (λ (r : FillRound). GivesBytes r.input.received) rounds
    → InWindow max_packets e.stream
    → InWindow max_packets
        (session_fill max_packets prefill_ms deadline_ms start_ms rounds e).stream
unfolding session_fill
session_fill-InWindow max_packets prefill_ms deadline_ms start_ms [] e bound b v = v
session_fill-InWindow max_packets prefill_ms deadline_ms start_ms (r ∷ rounds) e bound b v =
    if-both (λ (x : Engine). InWindow max_packets x.stream)
      (not (r.running && e.run)
        || (r.paused || leb (target_packets max_packets prefill_ms e.stream) e.stream.jb.count))
      v
      (if-both (λ (x : Engine). InWindow max_packets x.stream)
        (leb deadline_ms ((r.now_ms + 2 ^ 32 - start_ms) % 2 ^ 32)) v
        (session_fill-InWindow max_packets prefill_ms deadline_ms start_ms rounds
          (session_recv max_packets r.input e) bound b.1
          (session_recv-InWindow max_packets r.input e bound b.0 v)))

pub none-ne-some : {a : Entry} → none ≡ some a → ⊥
none-ne-some h = cc

-- The underrun flag and the last timestamp have no part in the window.
marked-InWindow :
    (max_packets : ℕ) (s : Stream) (in_underrun : Bool) (ts : ℕ)
    → InWindow max_packets s
    → InWindow max_packets (record s { in_underrun = in_underrun; last_played_ts = ts })
marked-InWindow max_packets s in_underrun ts v = record {
  valid = v.valid;
  ahead = v.ahead;
  unseeded = v.unseeded;
  playhead_in = v.playhead_in;
  per_packet = v.per_packet;
}

-- An emptied buffer is in any window.
emptied-InWindow :
    (max_packets : ℕ) (s s' : Stream)
    → InWindow max_packets s
    → s'.jb ≡ flush s.jb
    → s'.playhead ≡ s.playhead
    → s'.samples_per_packet ≡ s.samples_per_packet
    → InWindow max_packets s'
emptied-InWindow max_packets s s' v e p z =
    let c = flush-valid s.jb v.valid in
    record {
      valid = subst IsValid (sym e) c.valid;
      ahead =
          λ n x q. absurd (none-ne-some (sym (ap (λ (j : Jb). packet j n) e ∙ c.no_packet n) ∙ q));
      unseeded = λ h n. ap (λ (j : Jb). packet j n) e ∙ c.no_packet n;
      playhead_in = rw p v.playhead_in;
      per_packet = rw z v.per_packet;
    }

-- The socket gives bytes.
pub record SocketGivesBytes {W : Type 0} (world : World W) : Type 0 where
  pub on_receive : (w : W) → GivesBytes (world.receive w).0.received
  pub on_fill :
      (w : W) → All (λ (r : FillRound). GivesBytes r.input.received) (world.fill_rounds w).0

module _ {W : Type 0} (world : World W) (limits : Limits) (bound : limits.max_packets < 32768)
    (socket : SocketGivesBytes world) where
  -- The state that a turn leaves.
  abbrev Kept : Turn W → Type 0
  Kept r = InWindow limits.max_packets r.1.engine.stream

  abbrev Before : Engine → Type 0
  Before e = InWindow limits.max_packets e.stream

  pub fill_until-InWindow :
      (deadline_ms : ℕ) (e : Engine) (w : W)
      → Before e
      → Before (fill_until world limits deadline_ms e w).0
  unfolding fill_until
  fill_until-InWindow deadline_ms e w v =
      session_fill-InWindow limits.max_packets limits.prefill_ms deadline_ms _ _ e bound
        (socket.on_fill (world.now_ms w).1) v

  interrupted-InWindow : (e : Engine) (w : W) → Before e → Kept (interrupted world limits e w)
  unfolding interrupted flushed
  interrupted-InWindow e w v =
      let (on, w1) = world.player.session_run w in
      let (still_on, w2) = world.player.session_run w1 in
      let (held, w3) = world.paused w2 in
      let (silent, w4) = world.quiesced w3 in
      if-both Kept (not (on && e.run)) v (
        if-both Kept (pause_interrupted still_on held silent)
          (emptied-InWindow limits.max_packets e.stream (flushed e).stream v refl refl refl) v)

  paused_turn-InWindow : (e : Engine) (w : W) → Before e → Kept (paused_turn world limits e w)
  unfolding paused_turn
  paused_turn-InWindow e w v =
      if-both (InWindow limits.max_packets) (ltb 0 e.stream.jb.count)
        (emptied-InWindow limits.max_packets e.stream (record e.stream { jb = flush e.stream.jb }) v
          refl refl refl)
        v

  resumed_turn-InWindow : (e : Engine) (w : W) → Before e → Kept (resumed_turn world limits e w)
  unfolding resumed_turn resumed
  resumed_turn-InWindow e w v =
      fill_until-InWindow _ (resumed world limits e) w
        (emptied-InWindow limits.max_packets e.stream _ v refl refl refl)

  resync-InWindow :
      (o : Option Slot) (s : Stream) (m : Metrics)
      → InWindow limits.max_packets s
      → oldest s.jb s.playhead ≡ o
      → InWindow limits.max_packets (resync world limits o s m).0
  unfolding resync
  resync-InWindow none s m v e = marked-InWindow limits.max_packets s false s.last_played_ts v
  resync-InWindow (some x) s m v e =
      marked-InWindow limits.max_packets (record s { playhead = x.entry.seq }) false 0
        (moved-InWindow limits.max_packets bound x s v (oldest-Picked s.jb s.playhead x v.valid e))

  recovered-InWindow : (e : Engine) → Before e → Before (recovered world limits e)
  unfolding recovered
  recovered-InWindow e v =
      let s = (drop_stale e.stream e.metrics).0 in
      let m = (drop_stale e.stream e.metrics).1 in
      let v' = drop_stale-InWindow limits.max_packets bound e.stream e.metrics v in
      if-both Before (ltb 0 s.jb.count) (resync-InWindow (oldest s.jb s.playhead) s m v' refl) v'

  refill-InWindow : (e : Engine) (w : W) → Before e → Kept (refill world limits e w)
  unfolding refill
  refill-InWindow e w v =
      let (e1, w1) = fill_until world limits (recovery_deadline_ms e.stream.buffer_ms) e w in
      let (on, w2) = world.player.session_run w1 in
      let v1 = fill_until-InWindow (recovery_deadline_ms e.stream.buffer_ms) e w v in
      if-both Kept (on && e1.run) (recovered-InWindow e1 v1) v1

  counted_underrun-InWindow : (e : Engine) → Before e → Before (counted_underrun world limits e)
  unfolding counted_underrun
  counted_underrun-InWindow e v =
      if-both Before e.stream.in_underrun v
        (marked-InWindow limits.max_packets e.stream true e.stream.last_played_ts v)

  underrun-InWindow : (e : Engine) (w : W) → Before e → Kept (underrun world limits e w)
  unfolding underrun
  underrun-InWindow e w v =
      let e1 = counted_underrun world limits e in
      let v1 = counted_underrun-InWindow e v in
      let (ok, w1) = write_silence world.player e1.stream e1.stream.samples_per_packet w in
      if-both Kept ok (refill-InWindow e1 w1 v1) (interrupted-InWindow e1 w1 v1)

  play_turn-InWindow : (e : Engine) (w : W) → Before e → Kept (play_turn world limits e w)
  unfolding play_turn
  play_turn-InWindow e w v =
      let (ok, s, m, w1) = session_drain world.player limits.max_packets e.stream e.metrics w in
      let v1 =
        session_drain-InWindow limits.max_packets bound world.player e.stream e.metrics w v in
      let e1 = record e { stream = s; metrics = m } in
      if-both Kept (not ok) (interrupted-InWindow e1 w1 v1)
        (if-both Kept (s.stream_seeded && s.jb.count == 0) (underrun-InWindow e1 w1 v1) v1)

  act-InWindow :
      (a : Action) (was_paused : Bool) (e : Engine) (w : W)
      → Before e
      → Kept (act world limits a was_paused e w)
  unfolding act
  act-InWindow stop was_paused e w v = v
  act-InWindow pause was_paused e w v = paused_turn-InWindow e w v
  act-InWindow play true e w v = resumed_turn-InWindow e w v
  act-InWindow play false e w v = play_turn-InWindow e w v

  turn_after_receive-InWindow :
      (t : Task) (w : W) → Before t.engine → Kept (turn_after_receive world limits t w)
  unfolding turn_after_receive
  turn_after_receive-InWindow t w v =
      let (i, w1) = world.receive w in
      act-InWindow _ t.was_paused (session_recv limits.max_packets i t.engine) _
        (session_recv-InWindow limits.max_packets i t.engine bound (socket.on_receive w) v)

  task_turn-InWindow : (t : Task) (w : W) → Before t.engine → Kept (task_turn world limits t w)
  unfolding task_turn
  task_turn-InWindow t w v =
      let (on, w0) = world.player.session_run w in
      if-both Kept (on && t.engine.run) (turn_after_receive-InWindow t w0 v) v

  pub run_task-InWindow :
      (n : ℕ) (t : Task) (w : W) → Before t.engine → Before (run_task world limits n t w).0.engine
  unfolding run_task
  run_task-InWindow zero t w v = v
  run_task-InWindow (suc n) t w v =
      let (on, t', w') = task_turn world limits t w in
      let v' = task_turn-InWindow t w v in
      if-both (λ (r : Task × W). Before r.0.engine) on (run_task-InWindow n t' w' v') v'
