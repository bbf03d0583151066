-- ===== src/Output/Lifecycle/Stop.antt =====
-- The rest of `michi_audio_output_stop` and `michi_audio_output_deinit` of michi_audio_output.c.
use michi_music_stream.Prelude.{
  ◌+◌, ◌%◌, ◌^◌, Bool, true, false, not, ◌&&◌, ◌||◌, ◌==◌, if◌then◌else◌,
}
use michi_music_stream.Output.Control.{
  uninitialized, stopped, faulted, Pipe, is_running, is_quiesced,
}
use michi_music_stream.Output.Lifecycle.{
  idle, stop_waiting, deleting, freeing, System, no_ring, is_stopped, is_stopping, is_faulted,
}

-- The worker is gone: the channel is still to disable.
unfoldable pub stop_reap : Bool → System → System
stop_reap ok s =
    let p = s.pipe in
    if p.channel_enabled && s.tx && not ok
    then record s {
      stage = idle;
      pipe = record p {
        error_count = (p.error_count + 1) % 2 ^ 32;
        state = faulted;
        notify_closed = true;
        ring_write_barrier = true;
      };
    }
    else record s {
      stage = idle;
      pipe = record p {
        channel_enabled = p.channel_enabled && not s.tx;
        task_done = false;
        state = stopped;
        notify_closed = false;
        ring_write_barrier = false;
      };
    }

-- The worker is told to stop: the channel is disabled first, which ends a write of its.
unfoldable pub stop_disable : Bool → System → System
stop_disable ok s =
    let p = s.pipe in
    if p.channel_enabled
    then record s {
      stage = stop_waiting;
      disable_ok = ok;
      pipe = record p {
        channel_enabled = not ok;
        error_count = if ok then p.error_count else (p.error_count + 1) % 2 ^ 32;
      };
    }
    else record s { stage = stop_waiting; disable_ok = true }

-- One look of the join, `late` when its time is over.
unfoldable pub stop_join : Bool → System → System
stop_join late s =
    if s.pipe.task_done
    then record s {
      stage = idle;
      pipe = record s.pipe {
        task = false;
        task_done = not s.disable_ok;
        notify_closed = not s.disable_ok;
        state = if s.disable_ok then stopped else faulted;
        ring_write_barrier = not s.disable_ok;
      };
    }
    else if late
    then record s { stage = idle }
    else s

-- The check of `michi_audio_output_deinit`, on the flags that it has reconciled.
deinit_refuses : Pipe → Bool
deinit_refuses p =
    p.task
    || p.task_done
    || p.channel_enabled
    || not (p.write_inflight == 0)
    || not (p.control_inflight == 0)
    || is_running p.state
    || is_quiesced p.state
    || is_stopping p.state
    || (is_faulted p.state && not p.channel_delete_failed)

reconciled : Pipe → Pipe
reconciled p =
    if not p.task && p.task_done && is_stopped p.state
    then record p { task_done = false; notify_closed = false }
    else p

unfoldable pub deinit_begin : System → System
unfolding deinit_refuses reconciled
deinit_begin s =
    let p = reconciled s.pipe in
    if deinit_refuses p || not p.inited
    then record s { pipe = p }
    else record s { stage = deleting; pipe = p }

-- The deletion of the channel; where it fails, everything is kept for another try.
unfoldable pub deinit_delete : Bool → System → System
deinit_delete ok s =
    if s.tx && not ok
    then record s {
      stage = idle;
      pipe = record s.pipe {
        channel_delete_failed = true;
        error_count = (s.pipe.error_count + 1) % 2 ^ 32;
      };
    }
    else record s { stage = freeing; tx = false }

unfoldable pub deinit_free : System → System
deinit_free s = record s {
  stage = idle;
  ring_buf = false;
  semaphores = false;
  pipe = record s.pipe {
    inited = false;
    run = false;
    notify_closed = false;
    channel_delete_failed = false;
    channel_enabled = false;
    write_inflight = 0;
    control_inflight = 0;
    state = uninitialized;
    ring = if s.ring_buf then no_ring else s.pipe.ring;
    ring_write_barrier = if s.ring_buf then false else s.pipe.ring_write_barrier;
  };
}
