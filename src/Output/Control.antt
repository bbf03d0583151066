-- ===== src/Output/Control.antt =====
-- The control commands of michi_audio_output.c: `audio_control_command`, `send_cmd_and_wait_ack` and
-- the worker's `handle_pending_command_in_task`, one definition for each critical section.
-- `Quiesce` composes the sections with what other tasks do in between.
pub mod Quiesce
use michi_music_stream.Prelude.{
  ℕ, ◌+◌, ◌-◌, ◌%◌, ◌^◌, Bool, true, false, not, ◌&&◌, ◌||◌, Option, none, some, List, [], ◌∷◌,
  EspErr, is_ok, ◌==◌, if◌then◌else◌,
}
use michi_music_stream.Output.Ring.{Ring, chunk_bytes, ring_write, ring_reset}

-- `michi_audio_output_state_t`.
pub data OutputState : Type 0 where
  uninitialized initialized running quiesced stopping stopped faulted : OutputState

-- `michi_audio_cmd_t`.
pub data Command : Type 0 where
  idle quiesce resume stop : Command

-- The statics of the file; a handle is whether it is set.
pub record Pipe : Type 0 where
  pub state : OutputState
  pub inited : Bool
  pub run : Bool
  pub task : Bool
  pub task_done : Bool
  pub notify_closed : Bool
  pub channel_delete_failed : Bool
  pub channel_enabled : Bool
  pub write_inflight : ℕ
  pub control_inflight : ℕ
  pub pending_cmd : Command
  pub cmd_result : EspErr
  pub cmd_generation : ℕ
  pub cmd_ack_generation : ℕ
  pub ring_write_barrier : Bool
  pub ring : Ring
  pub frame_bytes : ℕ
  pub error_count : ℕ
  pub short_write_count : ℕ

abbrev pub is_running : OutputState → Bool
is_running running = true
is_running _ = false

abbrev pub is_quiesced : OutputState → Bool
is_quiesced quiesced = true
is_quiesced _ = false

-- FAULTED, STOPPING or STOPPED: another transition owns the pipeline.
abbrev pub is_over : OutputState → Bool
is_over faulted = true
is_over stopping = true
is_over stopped = true
is_over _ = false

-- The state that a command asks for is there already.
unfoldable pub already : Command → OutputState → Bool
already quiesce quiesced = true
already resume running = true
already _ _ = false

-- QUIESCE wants RUNNING, and RESUME wants QUIESCED.
unfoldable pub unsuited : Command → OutputState → Bool
unsuited quiesce s = not (is_running s)
unsuited resume s = not (is_quiesced s)
unsuited _ s = false

unfoldable pub is_quiesce : Command → Bool
is_quiesce quiesce = true
is_quiesce _ = false

-- Admission in `audio_control_command`: an answer at once, or a reference for the command.
unfoldable pub control_admit : Command → Pipe → Option EspErr × Pipe
unfolding already unsuited
control_admit cmd p =
    if not p.inited
    then (some EspErr.invalid_state, p)
    else if already cmd p.state
    then (some EspErr.ok, p)
    else if unsuited cmd p.state
    then (some EspErr.invalid_state, p)
    else (none, record p { control_inflight = (p.control_inflight + 1) % 2 ^ 32 })

-- Its end.
unfoldable pub control_leave : Pipe → Pipe
control_leave p = record p { control_inflight = (p.control_inflight + 2 ^ 32 - 1) % 2 ^ 32 }

-- `send_cmd_and_wait_ack`: the barrier closes before QUIESCE is published.
unfoldable pub close_barrier : Command → Pipe → Pipe
unfolding is_quiesce
close_barrier cmd p = if is_quiesce cmd then record p { ring_write_barrier = true } else p

-- The barrier opens again if the pipeline is still running.
unfoldable pub may_reopen : Command → Pipe → Pipe
unfolding is_quiesce
may_reopen cmd p =
    if is_quiesce cmd && is_running p.state then record p { ring_write_barrier = false } else p

-- The second look at the lifecycle: the command is published, or refused.
unfoldable pub publish : Command → Pipe → Bool × Pipe
unfolding unsuited
publish cmd p =
    if not p.task || (is_over p.state || unsuited cmd p.state)
    then (false, may_reopen cmd p)
    else (true, record p { cmd_generation = (p.cmd_generation + 1) % 2 ^ 32; pending_cmd = cmd })

-- What the wait for the ACK answers: with a timeout, an unacknowledged command faults the pipeline;
-- an ACK of another generation is answered with ESP_ERR_INVALID_RESPONSE.
unfoldable pub await_ack : Bool → ℕ → Pipe → EspErr × Pipe
await_ack timed_out my_gen p =
    if p.cmd_ack_generation == my_gen
    then (p.cmd_result, p)
    else if timed_out
    then (EspErr.timeout, record p { state = faulted; pending_cmd = idle })
    else (EspErr.invalid_response, p)

unfoldable pub after_ack : Command → EspErr → Pipe → Pipe
after_ack cmd res p = if is_ok res then p else may_reopen cmd p

-- The worker takes the pending command and its generation.
unfoldable pub take_command : Pipe → Command × ℕ × Pipe
take_command p = (p.pending_cmd, p.cmd_generation, record p { pending_cmd = idle })

-- QUIESCE, first part: the ring is emptied.
unfoldable pub quiesce_flush : Pipe → Pipe
quiesce_flush p = record p { ring = ring_reset p.ring }

-- A short write of silence is a failure even where the driver says ESP_OK.
unfoldable pub silence_result : EspErr → ℕ → EspErr
silence_result wr_err written =
    if is_ok wr_err && not (written == chunk_bytes) then EspErr.fail else wr_err

-- QUIESCE, second part: after the silence was written to the driver.
unfoldable pub quiesce_finish : ℕ → EspErr → ℕ → Pipe → Pipe
unfolding silence_result
quiesce_finish gen wr_err written p =
    let err = silence_result wr_err written in
    let counted = record p {
      short_write_count =
          if is_ok wr_err && not (written == chunk_bytes)
          then (p.short_write_count + 1) % 2 ^ 32
          else p.short_write_count;
      error_count = if is_ok err then p.error_count else (p.error_count + 1) % 2 ^ 32;
      cmd_ack_generation = gen;
    } in
    if is_over p.state
    then record counted { cmd_result = if is_ok err then EspErr.timeout else err }
    else if is_ok err
    then record counted { state = quiesced; cmd_result = EspErr.ok }
    else record counted { state = faulted; cmd_result = err }

-- RESUME: the state, and then the barrier.
unfoldable pub resume_state : ℕ → Pipe → Pipe
resume_state gen p =
    if is_over p.state
    then record p { cmd_ack_generation = gen; cmd_result = EspErr.timeout }
    else record p { cmd_ack_generation = gen; cmd_result = EspErr.ok; state = running }

unfoldable pub resume_barrier : Pipe → Pipe
resume_barrier p = if is_ok p.cmd_result then record p { ring_write_barrier = false } else p

unfoldable pub stop_state : ℕ → Pipe → Pipe
stop_state gen p = record p { cmd_ack_generation = gen; cmd_result = EspErr.ok; state = stopping }

-- `handle_pending_command_in_task` with nothing in between; `wr_err` and `written` are the driver's.
unfoldable pub handle_command : Command → ℕ → EspErr → ℕ → Pipe → Pipe
handle_command idle gen wr_err written p = p
handle_command quiesce gen wr_err written p = quiesce_finish gen wr_err written (quiesce_flush p)
handle_command resume gen wr_err written p = resume_barrier (resume_state gen p)
handle_command stop gen wr_err written p = stop_state gen p

unfoldable pub handle_pending : EspErr → ℕ → Pipe → Pipe
unfolding handle_command
handle_pending wr_err written p =
    let (cmd, gen, p') = take_command p in handle_command cmd gen wr_err written p'

-- One `ring_write` of a producer that was admitted earlier.
unfoldable pub produce : List ℕ → ℕ → Pipe → Pipe
produce bytes len p = record p {
  ring = (ring_write p.ring_write_barrier p.frame_bytes p.ring bytes len).2;
}

-- The writes that producers make between two sections, in order.
unfoldable pub produce_all : List (List ℕ × ℕ) → Pipe → Pipe
produce_all [] p = p
produce_all ((bytes, len) ∷ writes) p = produce_all writes (produce bytes len p)
