-- ===== src/Tests/Output.antt =====
-- Runs of the output pipeline's ring, configuration and control commands.
use michi_music_stream.Prelude.{◌≡◌, refl, true, false, List, [], ◌∷◌, EspErr, arith, All}
use michi_music_stream.Prelude.Int.{pos, negsuc}
use michi_music_stream.Output.Ring.{Ring, ring_write, ring_read, admitted, copy_out}
use michi_music_stream.Output.Ring.Valid.{IsValid, contents}
use michi_music_stream.Output.Ring.Queue.{Op, put, fetch, reset, set_barrier, run, run_ring}
use michi_music_stream.Output.Ring.Refine.{run_ring-run}
use michi_music_stream.Output.Ring.Frames.{WholeFrames, run_ring-WholeFrames}
use michi_music_stream.Output.Config.{Config, Geometry}
use michi_music_stream.Output.Control.{Pipe, OutputState, Command}
use michi_music_stream.Output.Lifecycle.Steps.{
  Event, init, start, stop, deinit, answered, go_on, write, control, command, work, exit,
  control_done, run_events, power_on,
}
use michi_music_stream.Output.Lifecycle.Owned.{IsOwned, run_events-IsOwned}
use michi_music_stream.Output.Control.Quiesce.{Between, Quieted, quiesce_call, quiesce_call-Quieted}

-- Eight bytes, of which four are held across the end.
abbrev wrapped : Ring
wrapped = record {
  buf = 30 ∷ 40 ∷ 0 ∷ 0 ∷ 0 ∷ 0 ∷ 10 ∷ 20 ∷ [];
  size = 8;
  head = 2;
  tail = 6;
  used = 4;
}

wrapped-IsValid : IsValid wrapped
wrapped-IsValid = record {
  exponent = 3;
  power = refl;
  positive = omega arith;
  small = omega arith;
  storage = refl;
  tail_in = omega arith;
  head_at = refl;
  used_in = omega arith;
}

ring_runs :
    (contents wrapped ≡ 10 ∷ 20 ∷ 30 ∷ 40 ∷ [])
    × ((ring_write false 4 wrapped (1 ∷ 2 ∷ 3 ∷ 4 ∷ 5 ∷ []) 5).0 ≡ 4)
    × ((ring_write true 4 wrapped (1 ∷ 2 ∷ 3 ∷ 4 ∷ []) 4).0 ≡ 0)
    × ((ring_read wrapped 3).0 ≡ 10 ∷ 20 ∷ 30 ∷ [])
unfolding ring_write ring_read admitted copy_out
ring_runs = (refl, refl, refl, refl)

abbrev calls : List Op
calls =
    fetch 4 ∷ put (1 ∷ 2 ∷ 3 ∷ 4 ∷ 5 ∷ []) ∷ set_barrier true ∷ put (6 ∷ []) ∷ fetch 8 ∷ reset ∷ []

run_ring-run_example : run_ring 4 false wrapped calls ≡ run 4 8 false (10 ∷ 20 ∷ 30 ∷ 40 ∷ []) calls
run_ring-run_example = run_ring-run 4 false calls wrapped-IsValid

run_ring-WholeFrames_example : All (WholeFrames 4) (run_ring 4 false wrapped calls)
run_ring-WholeFrames_example =
    run_ring-WholeFrames 4 false calls wrapped-IsValid refl refl
      (refl, (tt, (tt, (tt, (refl, (tt, tt))))))

-- Stereo at 48 kHz and 16 bits over a ring of 64 KiB.
abbrev stereo : Config
stereo = record {
  sample_rate = 48000;
  bit_depth = 16;
  channels = 2;
  buffer_ms = 100;
  ring_buffer_kb = 0;
  bclk = pos 4;
  lrck = pos 5;
  din = pos 6;
  mclk = negsuc 0;
}

abbrev stereo_geometry : Geometry
stereo_geometry = record { ring_size = 65536; prefill_bytes = 19200; frame_bytes = 4 }

-- A running pipeline whose ring holds a frame.
abbrev pipe : Pipe
pipe = record {
  state = OutputState.running;
  inited = true;
  run = true;
  task = true;
  task_done = false;
  notify_closed = false;
  channel_delete_failed = false;
  channel_enabled = true;
  write_inflight = 1;
  control_inflight = 0;
  pending_cmd = Command.idle;
  cmd_result = EspErr.ok;
  cmd_generation = 4294967295;
  cmd_ack_generation = 4294967295;
  ring_write_barrier = false;
  ring = wrapped;
  frame_bytes = 4;
  error_count = 0;
  short_write_count = 0;
}

-- A producer that writes before and after the barrier closes, and a short write of the silence.
abbrev short_silence : Between
short_silence = record {
  before_barrier = (1 ∷ 2 ∷ 3 ∷ 4 ∷ [], 4) ∷ [];
  before_publish = [];
  before_worker = (5 ∷ 6 ∷ 7 ∷ 8 ∷ [], 4) ∷ [];
  during_silence = [];
  before_ack = (5 ∷ 6 ∷ 7 ∷ 8 ∷ [], 4) ∷ [];
  wr_err = EspErr.ok;
  written = 4000;
}

quiesce_call-Quieted_example : Quieted short_silence 0 (quiesce_call short_silence pipe)
quiesce_call-Quieted_example = quiesce_call-Quieted short_silence pipe refl refl refl (omega arith)

-- A life: init, start, a producer that stays, a fault of the worker, stop, and a deinit that must wait.
abbrev life : List Event
life =
    init
    ∷ answered (record {
      buf = [];
      ring_size = 65536;
      frame_bytes = 4;
      ring_ok = true;
      channel_ok = true;
      setup_ok = true;
      deleted = true;
    })
    ∷ start
    ∷ go_on true
    ∷ go_on true
    ∷ go_on true
    ∷ go_on true
    ∷ write false
    ∷ control true
    ∷ command true
    ∷ work EspErr.ok 4092
    ∷ exit
    ∷ stop
    ∷ go_on true
    ∷ control_done
    ∷ deinit
    ∷ []

run_events-IsOwned_example : IsOwned (run_events life power_on)
run_events-IsOwned_example = run_events-IsOwned life
