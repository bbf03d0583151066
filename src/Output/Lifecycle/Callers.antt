-- ===== src/Output/Lifecycle/Callers.antt =====
-- The sections of producers, control callers and the worker keep it too.
use michi_music_stream.Prelude.{
  ℕ, ◌+◌, ◌%◌, ◌^◌, ◌≡◌, refl, ap, ◌∙◌, Bool, true, false, not, ◌&&◌, ◌||◌, Option, EspErr, is_ok,
  ◌==◌, if◌then◌else◌, arith, if-both, if-split,
}
use michi_music_stream.Output.Ring.{ring_read, chunk_bytes}
use michi_music_stream.Output.Control.{
  OutputState, Command, Pipe, is_running, is_quiesced, is_over, control_admit, control_leave,
  publish, await_ack, handle_pending, close_barrier, after_ack, produce, take_command, is_quiesce,
  silence_result, quiesce_flush, quiesce_finish, resume_state, resume_barrier, stop_state,
  may_reopen, handle_command, already, unsuited,
}
use michi_music_stream.Output.Lifecycle.{System}
use michi_music_stream.Output.Lifecycle.Steps.{
  Event, write, write_done, put, clear, clear_ring, control, barrier, command, timed_out, settled,
  control_done, work, take_chunk, fault, exit, write_admit, write_leave, caller_step, worker_step,
  worker_fault, worker_exit, command_of,
}
use michi_music_stream.Output.Lifecycle.Safe.{is_active, live, is_safe}

-- What callers and the worker leave alone.
abbrev owner : Pipe → Bool × Bool × Bool × Bool × Bool
owner p = (p.inited, p.channel_delete_failed, p.channel_enabled, p.task, p.task_done)

same-Safe :
    (s : System) (q : Pipe)
    → owner q ≡ owner s.pipe
    → live s ≡ true
    → is_safe s ≡ true
    → is_safe (record s { pipe = q }) ≡ true
same-Safe s q o l v =
    let inited : q.inited ≡ s.pipe.inited = ap (λ (x : Bool × Bool × Bool × Bool × Bool). x.0) o in
    let delete_failed : q.channel_delete_failed ≡ s.pipe.channel_delete_failed =
      ap (λ (x : Bool × Bool × Bool × Bool × Bool). x.1) o in
    let enabled : q.channel_enabled ≡ s.pipe.channel_enabled =
      ap (λ (x : Bool × Bool × Bool × Bool × Bool). x.2) o in
    let task : q.task ≡ s.pipe.task = ap (λ (x : Bool × Bool × Bool × Bool × Bool). x.3) o in
    let task_done : q.task_done ≡ s.pipe.task_done =
      ap (λ (x : Bool × Bool × Bool × Bool × Bool). x.4) o in
    ground (arith, inited, delete_failed, enabled, task, task_done, l, v)

live_active : (s : System) → is_safe s ≡ true → is_active s.pipe.state ≡ true → live s ≡ true
live_active s v h = ground (arith, v, h)

live_producing :
    (s : System) → is_safe s ≡ true → (s.pipe.write_inflight == 0) ≡ false → live s ≡ true
live_producing s v h = ground (arith, v, h)

live_controlling :
    (s : System) → is_safe s ≡ true → (s.pipe.control_inflight == 0) ≡ false → live s ≡ true
live_controlling s v h = ground (arith, v, h)

live_worker : (s : System) → is_safe s ≡ true → s.worker ≡ true → live s ≡ true
live_worker s v h = ground (arith, v, h)

-- A section that keeps the owner, run by a task that is inside.
inside-Safe :
    (s : System) (b : Bool) (q : Pipe)
    → ((b ≡ false) → live s ≡ true)
    → owner q ≡ owner s.pipe
    → is_safe s ≡ true
    → is_safe (record s { pipe = if b then s.pipe else q }) ≡ true
inside-Safe s b q l o v =
    if-split (λ (p : Pipe). is_safe (record s { pipe = p }) ≡ true) b (λ _. v)
      (λ h. same-Safe s q o (l h) v)

owner-may_reopen : (c : Command) (p : Pipe) → owner (may_reopen c p) ≡ owner p
unfolding may_reopen
owner-may_reopen c p =
    if-both (λ (q : Pipe). owner q ≡ owner p) (is_quiesce c && is_running p.state) refl refl

owner-close_barrier : (c : Command) (p : Pipe) → owner (close_barrier c p) ≡ owner p
unfolding close_barrier
owner-close_barrier c p = if-both (λ (q : Pipe). owner q ≡ owner p) (is_quiesce c) refl refl

owner-clear_ring : (p : Pipe) → owner (clear_ring p) ≡ owner p
unfolding clear_ring
owner-clear_ring p = if-both (λ (q : Pipe). owner q ≡ owner p) p.ring_write_barrier refl refl

owner-after_ack : (c : Command) (res : EspErr) (p : Pipe) → owner (after_ack c res p) ≡ owner p
unfolding after_ack
owner-after_ack c res p =
    if-both (λ (q : Pipe). owner q ≡ owner p) (is_ok res) refl (owner-may_reopen c p)

owner-publish : (c : Command) (p : Pipe) → owner (publish c p).1 ≡ owner p
unfolding publish
owner-publish c p =
    if-both (λ (r : Bool × Pipe). owner r.1 ≡ owner p)
      (not p.task || (is_over p.state || unsuited c p.state)) (owner-may_reopen c p) refl

owner-await_ack : (gen : ℕ) (p : Pipe) → owner (await_ack true gen p).1 ≡ owner p
unfolding await_ack
owner-await_ack gen p =
    if-both (λ (r : EspErr × Pipe). owner r.1 ≡ owner p) (p.cmd_ack_generation == gen) refl refl

owner-quiesce_finish :
    (gen : ℕ) (wr_err : EspErr) (written : ℕ) (p : Pipe)
    → owner (quiesce_finish gen wr_err written p) ≡ owner p
unfolding quiesce_finish
owner-quiesce_finish gen wr_err written p =
    let P : Pipe → Type 0 = λ q. owner q ≡ owner p in
    if-both P (is_over p.state) refl (if-both P (is_ok (silence_result wr_err written)) refl refl)

owner-resume_barrier : (p : Pipe) → owner (resume_barrier p) ≡ owner p
unfolding resume_barrier
owner-resume_barrier p = if-both (λ (q : Pipe). owner q ≡ owner p) (is_ok p.cmd_result) refl refl

owner-resume_state : (gen : ℕ) (p : Pipe) → owner (resume_state gen p) ≡ owner p
unfolding resume_state
owner-resume_state gen p = if-both (λ (q : Pipe). owner q ≡ owner p) (is_over p.state) refl refl

owner-handle_command :
    (c : Command) (gen : ℕ) (wr_err : EspErr) (written : ℕ) (p : Pipe)
    → owner (handle_command c gen wr_err written p) ≡ owner p
unfolding handle_command quiesce_flush stop_state
owner-handle_command Command.idle gen wr_err written p = refl
owner-handle_command Command.quiesce gen wr_err written p =
    owner-quiesce_finish gen wr_err written (quiesce_flush p)
owner-handle_command Command.resume gen wr_err written p =
    owner-resume_barrier (resume_state gen p) ∙ owner-resume_state gen p
owner-handle_command Command.stop gen wr_err written p = refl

owner-handle_pending :
    (wr_err : EspErr) (written : ℕ) (p : Pipe) → owner (handle_pending wr_err written p) ≡ owner p
unfolding handle_pending take_command
owner-handle_pending wr_err written p =
    owner-handle_command p.pending_cmd p.cmd_generation wr_err written
      (record p { pending_cmd = Command.idle })

write_admit-Safe :
    (flush : Bool) (s : System)
    → is_safe s ≡ true
    → is_safe (record s { pipe = write_admit flush s.pipe }) ≡ true
unfolding write_admit
write_admit-Safe flush s v =
    if-split (λ (p : Pipe). is_safe (record s { pipe = p }) ≡ true)
      (is_running s.pipe.state || (flush && is_quiesced s.pipe.state))
      (λ h.
        same-Safe s (record s.pipe { write_inflight = (s.pipe.write_inflight + 1) % 2 ^ 32 }) refl
          (live_active s v (ground (arith, h))) v)
      (λ _. v)

control_admit-Safe :
    (b : Bool) (s : System)
    → is_safe s ≡ true
    → is_safe (record s { pipe = (control_admit (command_of b) s.pipe).1 }) ≡ true
unfolding control_admit unsuited
control_admit-Safe b s v =
    let c = command_of b in
    let P : Option EspErr × Pipe → Type 0 = λ r. is_safe (record s { pipe = r.1 }) ≡ true in
    if-both P (not s.pipe.inited) v (
      if-both P (already c s.pipe.state) v (
        if-split P (unsuited c s.pipe.state) (λ _. v)
          (λ h.
            same-Safe s
              (record s.pipe { control_inflight = (s.pipe.control_inflight + 1) % 2 ^ 32 }) refl
              (live_active s v (suited b s.pipe.state h)) v)))
  where
    suited :
        (d : Bool) (st : OutputState) → unsuited (command_of d) st ≡ false → is_active st ≡ true
    suited d st h = ground (arith, h)

pub caller_step-Safe :
    (e : Event) (s : System)
    → is_safe s ≡ true
    → is_safe (record s { pipe = caller_step e s.pipe }) ≡ true
unfolding caller_step write_leave produce control_leave
caller_step-Safe (write flush) s v = write_admit-Safe flush s v
caller_step-Safe write_done s v = inside-Safe s _ _ (live_producing s v) refl v
caller_step-Safe (put bytes len) s v = inside-Safe s _ _ (live_producing s v) refl v
caller_step-Safe clear s v =
    inside-Safe s _ (clear_ring s.pipe) (live_producing s v) (owner-clear_ring s.pipe) v
caller_step-Safe (control b) s v = control_admit-Safe b s v
caller_step-Safe (barrier b) s v =
    inside-Safe s _ _ (live_controlling s v) (owner-close_barrier (command_of b) s.pipe) v
caller_step-Safe (command b) s v =
    inside-Safe s _ _ (live_controlling s v) (owner-publish (command_of b) s.pipe) v
caller_step-Safe (timed_out gen) s v =
    inside-Safe s _ _ (live_controlling s v) (owner-await_ack gen s.pipe) v
caller_step-Safe (settled b res) s v =
    inside-Safe s _ _ (live_controlling s v) (owner-after_ack (command_of b) res s.pipe) v
caller_step-Safe control_done s v = inside-Safe s _ _ (live_controlling s v) refl v
caller_step-Safe _ s v = v

worker_exit-Safe :
    (s : System) → s.worker ≡ true → is_safe s ≡ true → is_safe (worker_exit s) ≡ true
unfolding worker_exit
worker_exit-Safe s w v = ground (arith, w, v)

pub worker_step-Safe :
    (e : Event) (s : System) → s.worker ≡ true → is_safe s ≡ true → is_safe (worker_step e s) ≡ true
unfolding worker_step worker_fault
worker_step-Safe (work wr_err written) s w v =
    same-Safe s (handle_pending wr_err written s.pipe) (owner-handle_pending wr_err written s.pipe)
      (live_worker s v w) v
worker_step-Safe take_chunk s w v =
    same-Safe s (record s.pipe { ring = (ring_read s.pipe.ring chunk_bytes).1 }) refl
      (live_worker s v w) v
worker_step-Safe fault s w v = same-Safe s (worker_fault s.pipe) refl (live_worker s v w) v
worker_step-Safe exit s w v = worker_exit-Safe s w v
worker_step-Safe _ s w v = v
