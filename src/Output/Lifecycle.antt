-- ===== src/Output/Lifecycle.antt =====
-- The life of the output pipeline in michi_audio_output.c: init, start, stop and deinit, which one
-- task at a time runs under the lifecycle lease, and the sections of producers, control callers and
-- the worker that fall in between. A stage says how far the holder of the lease has come; an event
-- that is not possible at a stage changes nothing. Answers of the driver, of the allocator and of the
-- scheduler are arguments. A write of the barrier belongs to the section of the state that it follows
-- or precedes.
pub mod Stop
pub mod Steps
pub mod Safe
pub mod Callers
pub mod Owned
use michi_music_stream.Prelude.{
  ℕ, ◌+◌, ◌-◌, ◌%◌, ◌^◌, Bool, true, false, not, ◌&&◌, ◌||◌, Option, none, some, List, [], ◌∷◌,
  EspErr, is_ok, ◌==◌, if◌then◌else◌,
}
use michi_music_stream.Output.Ring.{Ring, ring_reset}
use michi_music_stream.Output.Config.{fresh}
use michi_music_stream.Output.Control.{
  OutputState, uninitialized, initialized, running, quiesced, stopping, stopped, faulted, Command,
  Pipe, is_running, is_quiesced, is_over, control_admit, control_leave, publish, await_ack,
  handle_pending,
}

-- Where the holder of the lease stands; `idle` when `s_lifecycle_busy` is false.
pub data Stage : Type 0 where
  idle initializing start_admitted start_enabled start_flagged start_created start_failed
        stop_reaping stop_joining stop_waiting deleting freeing :
      Stage

-- The statics, the resources that they own, and whether a worker runs `i2s_task`.
pub record System : Type 0 where
  pub pipe : Pipe
  pub stage : Stage
  pub tx : Bool
  pub ring_buf : Bool
  pub semaphores : Bool
  pub disable_ok : Bool
  pub worker : Bool

abbrev pub is_idle : Stage → Bool
is_idle idle = true
is_idle _ = false

abbrev pub is_uninitialized : OutputState → Bool
is_uninitialized uninitialized = true
is_uninitialized _ = false

-- INITIALIZED or STOPPED.
abbrev pub is_at_rest : OutputState → Bool
is_at_rest initialized = true
is_at_rest stopped = true
is_at_rest _ = false

abbrev pub is_stopping : OutputState → Bool
is_stopping stopping = true
is_stopping _ = false

abbrev pub is_faulted : OutputState → Bool
is_faulted faulted = true
is_faulted _ = false

abbrev pub is_stopped : OutputState → Bool
is_stopped stopped = true
is_stopped _ = false

-- `lifecycle_try_enter` and the first check of `michi_audio_output_init`.
unfoldable pub init_begin : System → System
init_begin s =
    if not (s.pipe.inited || not (is_uninitialized s.pipe.state))
    then record s { stage = initializing }
    else s

-- What init meets after its check: the allocation, with the geometry of the configuration; a bad configuration or no memory, a channel that is not created,
-- a setup that fails, and the deletion of the channel after that.
pub record InitAnswers : Type 0 where
  pub buf : List ℕ
  pub ring_size : ℕ
  pub frame_bytes : ℕ
  pub ring_ok : Bool
  pub channel_ok : Bool
  pub setup_ok : Bool
  pub deleted : Bool

-- The ring without a buffer.
abbrev pub no_ring : Ring
no_ring = record { buf = []; size = 0; head = 0; tail = 0; used = 0 }

-- `quarantine_failed_init_channel`.
quarantined : InitAnswers → System → System
quarantined a s = record s {
  stage = idle;
  tx = true;
  ring_buf = true;
  pipe = record s.pipe {
    inited = true;
    run = false;
    task = false;
    task_done = false;
    notify_closed = true;
    channel_delete_failed = true;
    state = faulted;
    ring_write_barrier = true;
    ring = fresh a.buf a.ring_size;
    frame_bytes = a.frame_bytes;
    error_count = (s.pipe.error_count + 1) % 2 ^ 32;
  };
}

ready : InitAnswers → System → System
ready a s = record s {
  stage = idle;
  tx = true;
  ring_buf = true;
  semaphores = true;
  pipe = record s.pipe {
    inited = true;
    run = false;
    task = false;
    task_done = false;
    notify_closed = false;
    channel_delete_failed = false;
    channel_enabled = false;
    control_inflight = 0;
    pending_cmd = Command.idle;
    cmd_generation = 0;
    cmd_ack_generation = 0;
    state = initialized;
    ring_write_barrier = false;
    ring = fresh a.buf a.ring_size;
    frame_bytes = a.frame_bytes;
  };
}

init_released : System → System
init_released s = record s {
  stage = idle;
  ring_buf = false;
  pipe = record s.pipe { ring = no_ring; ring_write_barrier = false };
}

unfoldable pub init_end : InitAnswers → System → System
unfolding quarantined ready init_released
init_end a s =
    if not a.ring_ok
    then record s { stage = idle }
    else if not a.channel_ok
    then init_released s
    else if a.setup_ok
    then ready a s
    else if a.deleted
    then init_released s
    else quarantined a s

-- `michi_audio_output_start`: its check, with the flush that follows.
unfoldable pub start_begin : System → System
start_begin s =
    let p = s.pipe in
    if not p.inited
      || p.channel_delete_failed
      || p.channel_enabled
      || not (p.write_inflight == 0)
      || p.task
      || p.task_done
      || not (is_at_rest p.state)
    then s
    else record s {
      stage = start_admitted;
      pipe = record p { ring = ring_reset p.ring; ring_write_barrier = false };
    }

unfoldable pub start_enable : Bool → System → System
start_enable ok s =
    if ok
    then record s { stage = start_enabled; pipe = record s.pipe { channel_enabled = true } }
    else record s { stage = idle }

unfoldable pub start_flags : System → System
start_flags s = record s {
  stage = start_flagged;
  pipe = record s.pipe { run = true; state = running; task_done = false; notify_closed = false };
}

-- `xTaskCreate`; the worker may run, and end, before its handle is published.
unfoldable pub start_create : Bool → System → System
start_create ok s =
    if ok
    then record s { stage = start_created; worker = true }
    else record s { stage = start_failed }

unfoldable pub start_undo : Bool → System → System
start_undo ok s = record s {
  stage = idle;
  pipe = record s.pipe {
    channel_enabled = not ok;
    error_count = if ok then s.pipe.error_count else (s.pipe.error_count + 1) % 2 ^ 32;
    run = false;
    state = if ok then initialized else faulted;
    task = false;
    task_done = not ok;
    notify_closed = not ok;
  };
}

unfoldable pub start_publish : System → System
start_publish s = record s {
  stage = idle;
  pipe = if s.pipe.task_done then s.pipe else record s.pipe { task = true };
}

-- `michi_audio_output_stop`: refused, idempotent, a worker that is gone, or a worker to stop.
unfoldable pub stop_begin : System → System
stop_begin s =
    let p = s.pipe in
    if not p.inited || (p.channel_delete_failed && not p.channel_enabled)
    then s
    else if is_at_rest p.state && not p.channel_enabled && not p.task_done && not p.task
    then record s { pipe = record p { notify_closed = false; ring_write_barrier = false } }
    else if not p.task && p.task_done
    then record s { stage = stop_reaping }
    else record s { stage = stop_joining; pipe = record p { state = stopping; run = false } }
