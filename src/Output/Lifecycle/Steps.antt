-- ===== src/Output/Lifecycle/Steps.antt =====
-- The interleavings of michi_audio_output.c: the sections of the lifecycle calls, of producers, of
-- control callers and of the worker, in any order.
use michi_music_stream.Prelude.{
  ℕ, ◌+◌, ◌-◌, ◌%◌, ◌^◌, Bool, true, false, not, ◌&&◌, ◌||◌, List, [], ◌∷◌, EspErr, ◌==◌,
  if◌then◌else◌,
}
use michi_music_stream.Output.Ring.{ring_reset, ring_read, chunk_bytes}
use michi_music_stream.Output.Control.{
  uninitialized, faulted, Command, Pipe, is_running, is_quiesced, control_admit, control_leave,
  publish, await_ack, close_barrier, after_ack, produce, handle_pending,
}
use michi_music_stream.Output.Lifecycle.{
  Stage, idle, initializing, start_admitted, start_enabled, start_flagged, start_created,
  start_failed, stop_reaping, stop_joining, stop_waiting, deleting, freeing, System, InitAnswers,
  no_ring, is_stopping, is_faulted, init_begin, init_end, start_begin, start_enable, start_flags,
  start_create, start_undo, start_publish, stop_begin,
}
use michi_music_stream.Output.Lifecycle.Stop.{
  stop_reap, stop_disable, stop_join, deinit_begin, deinit_delete, deinit_free,
}

-- A producer of `michi_audio_output_write` or, with `flush`, of `michi_audio_output_flush`.
unfoldable pub write_admit : Bool → Pipe → Pipe
write_admit flush p =
    if is_running p.state || (flush && is_quiesced p.state)
    then record p { write_inflight = (p.write_inflight + 1) % 2 ^ 32 }
    else p

unfoldable pub write_leave : Pipe → Pipe
write_leave p = record p { write_inflight = (p.write_inflight + 2 ^ 32 - 1) % 2 ^ 32 }

-- The section of `michi_audio_output_flush` on the ring; a deinit has not begun while it is inside.
unfoldable pub clear_ring : Pipe → Pipe
clear_ring p = if p.ring_write_barrier then p else record p { ring = ring_reset p.ring }

-- The worker gives up after MICHI_AUDIO_DMA_FATAL_STREAK failures of the driver.
unfoldable pub worker_fault : Pipe → Pipe
worker_fault p = record p { state = faulted; run = false }

-- The end of `i2s_task`.
unfoldable pub worker_exit : System → System
worker_exit s = record s {
  worker = false;
  pipe = record s.pipe {
    notify_closed = true;
    task_done = true;
    state = if is_faulted s.pipe.state || is_stopping s.pipe.state then s.pipe.state else faulted;
    task = false;
  };
}

-- A section that runs next: of the holder of the lease, of a new lifecycle call, or of another task.
pub data Event : Type 0 where
  init start stop deinit : Event
  answered : InitAnswers → Event
  go_on : Bool → Event
  write : Bool → Event
  write_done : Event
  put : List ℕ → ℕ → Event
  clear : Event
  control : Bool → Event
  barrier : Bool → Event
  command : Bool → Event
  timed_out : ℕ → Event
  settled : Bool → EspErr → Event
  control_done : Event
  work : EspErr → ℕ → Event
  take_chunk : Event
  fault : Event
  exit : Event

-- `michi_audio_output_quiesce` and `michi_audio_output_resume`.
abbrev pub command_of : Bool → Command
command_of pausing = if pausing then Command.quiesce else Command.resume

-- A lifecycle call gets the lease only when nobody holds it.
unfoldable pub lifecycle_step : Event → Stage → System → System
lifecycle_step init idle s = init_begin s
lifecycle_step start idle s = start_begin s
lifecycle_step stop idle s = stop_begin s
lifecycle_step deinit idle s = deinit_begin s
lifecycle_step (answered a) initializing s = init_end a s
lifecycle_step (go_on ok) start_admitted s = start_enable ok s
lifecycle_step (go_on ok) start_enabled s = start_flags s
lifecycle_step (go_on ok) start_flagged s = start_create ok s
lifecycle_step (go_on ok) start_created s = start_publish s
lifecycle_step (go_on ok) start_failed s = start_undo ok s
lifecycle_step (go_on ok) stop_reaping s = stop_reap ok s
lifecycle_step (go_on ok) stop_joining s = stop_disable ok s
lifecycle_step (go_on ok) stop_waiting s = stop_join (not ok) s
lifecycle_step (go_on ok) deleting s = deinit_delete ok s
lifecycle_step (go_on ok) freeing s = deinit_free s
lifecycle_step _ _ s = s

-- What other tasks do to the statics. A caller is inside while its count is not zero.
unfoldable pub caller_step : Event → Pipe → Pipe
unfolding write_admit write_leave
caller_step (write flush) p = write_admit flush p
caller_step write_done p = if p.write_inflight == 0 then p else write_leave p
caller_step (put bytes len) p = if p.write_inflight == 0 then p else produce bytes len p
caller_step clear p = if p.write_inflight == 0 then p else clear_ring p
caller_step (control b) p = (control_admit (command_of b) p).1
caller_step (barrier b) p = if p.control_inflight == 0 then p else close_barrier (command_of b) p
caller_step (command b) p = if p.control_inflight == 0 then p else (publish (command_of b) p).1
caller_step (settled b res) p =
    if p.control_inflight == 0 then p else after_ack (command_of b) res p
caller_step (timed_out gen) p = if p.control_inflight == 0 then p else (await_ack true gen p).1
caller_step control_done p = if p.control_inflight == 0 then p else control_leave p
caller_step _ p = p

unfoldable pub worker_step : Event → System → System
unfolding worker_fault worker_exit
worker_step (work wr_err written) s = record s { pipe = handle_pending wr_err written s.pipe }
worker_step take_chunk s = record s {
  pipe = record s.pipe { ring = (ring_read s.pipe.ring chunk_bytes).1 };
}
worker_step fault s = record s { pipe = worker_fault s.pipe }
worker_step exit s = worker_exit s
worker_step _ s = s

unfoldable pub step : Event → System → System
unfolding lifecycle_step caller_step worker_step
step e s =
    let s1 = lifecycle_step e s.stage s in
    let s2 = record s1 { pipe = caller_step e s1.pipe } in
    if s2.worker then worker_step e s2 else s2

unfoldable pub run_events : List Event → System → System
run_events [] s = s
run_events (e ∷ es) s = run_events es (step e s)

-- The statics at power-on.
unfoldable pub power_on : System
power_on = record {
  pipe = record {
    state = uninitialized;
    inited = false;
    run = false;
    task = false;
    task_done = false;
    notify_closed = false;
    channel_delete_failed = false;
    channel_enabled = false;
    write_inflight = 0;
    control_inflight = 0;
    pending_cmd = Command.idle;
    cmd_result = EspErr.ok;
    cmd_generation = 0;
    cmd_ack_generation = 0;
    ring_write_barrier = false;
    ring = no_ring;
    frame_bytes = 4;
    error_count = 0;
    short_write_count = 0;
  };
  stage = idle;
  tx = false;
  ring_buf = false;
  semaphores = false;
  disable_ok = true;
  worker = false;
}
