-- ===== src/Engine/Task/Session.antt =====
-- A whole run of `session_task`: the window of the packets held, and how a session ends by itself.
use michi_music_stream.Prelude.{ℕ, ◌+◌, ◌*◌, ◌^◌, ◌<◌, sym, ◌∙◌, Bool, ◌&&◌, ◌||◌, if-both}
use michi_music_stream.JitterBuffer.Removal.{IsEmpty}
use michi_music_stream.Engine.{Stream, Engine}
use michi_music_stream.Engine.Policy.Window.{InWindow}
use michi_music_stream.Engine.Playback.Gap.{DrainIsBounded, InWindow-DrainIsBounded}
use michi_music_stream.Engine.Task.{
  World, Limits, Task, prefill_deadline_ms, run_task, task_start, task_exit, session_task,
}
use michi_music_stream.Engine.Task.Window.{
  SocketGivesBytes, none-ne-some, fill_until-InWindow, run_task-InWindow,
}

-- A session as it starts: nothing is held, and the window fits the counters.
pub record IsFresh (max_packets : ℕ) (s : Stream) : Type 0 where
  pub empty : IsEmpty s.jb
  pub playhead_in : s.playhead < 65536
  pub per_packet : (max_packets + 1) * s.samples_per_packet < 2 ^ 32

module _ {W : Type 0} (world : World W) (limits : Limits) (bound : limits.max_packets < 32768)
    (socket : SocketGivesBytes world) where
  -- The state of a task.
  abbrev Kept : Task × W → Type 0
  Kept r = InWindow limits.max_packets r.0.engine.stream

  task_start-InWindow :
      (e : Engine) (w : W)
      → InWindow limits.max_packets e.stream
      → InWindow limits.max_packets (task_start world limits e w).1.engine.stream
  unfolding task_start
  task_start-InWindow e w v =
      let (on, w1) = world.player.session_run w in
      if-both (λ (r : Bool × Task × W). InWindow limits.max_packets r.1.engine.stream) (on && e.run)
        (fill_until-InWindow world limits bound socket prefill_deadline_ms e w1 v) v

  task_exit-InWindow : (t : Task) (w : W) → Kept (t, w) → Kept (task_exit world limits t w)
  unfolding task_exit
  task_exit-InWindow t w v =
      if-both (λ (e : Engine). InWindow limits.max_packets e.stream)
        (t.self_end || t.engine.stream.fatal_recv_error) v v

  session_task-InWindow :
      (n : ℕ) (e : Engine) (w : W)
      → InWindow limits.max_packets e.stream
      → Kept (session_task world limits n e w)
  unfolding session_task
  session_task-InWindow n e w v =
      let (on, t, w1) = task_start world limits e w in
      let (t', w2) = run_task world limits n t w1 in
      let v1 = task_start-InWindow e w v in
      if-both Kept on
        (task_exit-InWindow t' w2 (run_task-InWindow world limits bound socket n t w1 v1))
        (task_exit-InWindow t w1 v1)

-- Over the whole life of a session, from an empty buffer, for a window of less than 32768 packets
-- whose samples fit 32 bits, whatever bytes the socket gives, whatever the pipeline answers and
-- whenever other tasks pause or stop it: the packets held lie at the
-- playhead or at most the window ahead of it, a drain finds nothing stale and picks nothing behind
-- the playhead, and the silence it inserts for a gap is at most the window's length.
pub session_task-InWindow_bounded :
    {W : Type 0} (world : World W) (limits : Limits) (n : ℕ) (e : Engine) (w : W)
    → limits.max_packets < 32768
    → SocketGivesBytes world
    → IsFresh limits.max_packets e.stream
    → let s = (session_task world limits n e w).0.engine.stream in
      InWindow limits.max_packets s × DrainIsBounded limits.max_packets s
session_task-InWindow_bounded world limits n e w bound socket fresh =
    let start : InWindow limits.max_packets e.stream = record {
      valid = fresh.empty.valid;
      ahead = λ k x q. absurd (none-ne-some (sym (fresh.empty.no_packet k) ∙ q));
      unseeded = λ h. fresh.empty.no_packet;
      playhead_in = fresh.playhead_in;
      per_packet = fresh.per_packet;
    } in
    let v = session_task-InWindow world limits bound socket n e w start in
    (v, InWindow-DrainIsBounded limits.max_packets _ bound v)
