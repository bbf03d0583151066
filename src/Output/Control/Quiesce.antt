-- ===== src/Output/Control/Quiesce.antt =====
-- A whole QUIESCE and a whole RESUME of michi_audio_output.c, with producers writing in every gap
-- between the critical sections.
use michi_music_stream.Prelude.{
  ℕ, ◌+◌, ◌-◌, ◌%◌, ◌^◌, ◌<◌, ◌≡◌, ◌≢◌, ◌⊎◌, refl, inl, inr, Bool-cases, ==-cases,
  EspErr-ok_of_is_ok, ap, subst, ◌∙◌, true, false, Option, none, some, List, [], ◌∷◌, EspErr, is_ok,
  arith, if◌then◌else◌,
}
use michi_music_stream.Output.Ring.{ring_write, ring_reset}
use michi_music_stream.Output.Control.{
  running, quiesced, faulted, quiesce, Pipe, control_admit, control_leave, close_barrier,
  may_reopen, publish, await_ack, after_ack, take_command, quiesce_flush, idle, silence_result,
  quiesce_finish, produce, produce_all, chunk_bytes,
}

abbrev pub Writes : Type 0
Writes = List (List ℕ × ℕ)

-- What is outside of the sections: the writes of producers in each gap, and the driver's answer.
pub record Between : Type 0 where
  pub before_barrier : Writes
  pub before_publish : Writes
  pub before_worker : Writes
  pub during_silence : Writes
  pub before_ack : Writes
  pub wr_err : EspErr
  pub written : ℕ

-- The worker's part, from the published command on.
quiesce_worker : Between → Pipe → Pipe
quiesce_worker x p =
    let (cmd, gen, p1) = take_command (produce_all x.before_worker p) in
    quiesce_finish gen x.wr_err x.written (produce_all x.during_silence (quiesce_flush p1))

-- The caller's end.
quiesce_end : Between → ℕ → Pipe → EspErr × Pipe
quiesce_end x my_gen p =
    let (res, p1) = await_ack false my_gen (produce_all x.before_ack p) in
    (res, control_leave (after_ack quiesce res p1))

-- From the closed barrier on.
quiesce_barred : Between → Pipe → EspErr × Pipe
unfolding quiesce_worker quiesce_end
quiesce_barred x p =
    let (ok, p1) = publish quiesce (produce_all x.before_publish p) in
    if ok
    then quiesce_end x p1.cmd_generation (quiesce_worker x p1)
    else (EspErr.invalid_state, control_leave p1)

-- `michi_audio_output_quiesce` from RUNNING, the worker answering in time.
quiesce_admitted : Between → Pipe → EspErr × Pipe
unfolding quiesce_barred
quiesce_admitted x p = quiesce_barred x (close_barrier quiesce (produce_all x.before_barrier p))

quiesce_answer : Between → Option EspErr × Pipe → EspErr × Pipe
unfolding quiesce_admitted
quiesce_answer x (none, p) = quiesce_admitted x p
quiesce_answer x (some err, p) = (err, p)

unfoldable pub quiesce_call : Between → Pipe → EspErr × Pipe
unfolding quiesce_answer
quiesce_call x p = quiesce_answer x (control_admit quiesce p)

-- Producers change nothing but the ring, and nothing at all behind the barrier.
produce_all-ring :
    (ws : Writes) (p : Pipe) → produce_all ws p ≡ record p { ring = (produce_all ws p).ring }
unfolding produce_all produce
produce_all-ring [] p = refl
produce_all-ring ((bytes, len) ∷ ws) p = produce_all-ring ws (produce bytes len p)

produce_all-closed : (ws : Writes) (p : Pipe) → p.ring_write_barrier ≡ true → produce_all ws p ≡ p
unfolding produce_all produce ring_write
produce_all-closed [] p h = refl
produce_all-closed ((bytes, len) ∷ ws) p h =
    ap (produce_all ws) (unchanged p h) ∙ produce_all-closed ws p h
  where
    unchanged : (q : Pipe) → q.ring_write_barrier ≡ true → produce bytes len q ≡ q
    unchanged q k = rw k refl

record Answered (x : Between) (inflight : ℕ) (r : EspErr × Pipe) : Type 0 where
  answer : r.0 ≡ silence_result x.wr_err x.written
  state : r.1.state ≡ (if is_ok (silence_result x.wr_err x.written) then quiesced else faulted)
  barred : r.1.ring_write_barrier ≡ true
  emptied : r.1.ring.used ≡ 0
  released : r.1.control_inflight ≡ inflight

-- What the worker leaves of a running pipeline.
record Finished (err : EspErr) (gen : ℕ) (p f : Pipe) : Type 0 where
  acked : f.cmd_ack_generation ≡ gen
  result : f.cmd_result ≡ err
  state : f.state ≡ (if is_ok err then quiesced else faulted)
  barred : f.ring_write_barrier ≡ p.ring_write_barrier
  ring : f.ring ≡ p.ring
  inflight : f.control_inflight ≡ p.control_inflight

quiesce_finish-Finished :
    (gen : ℕ) (wr_err : EspErr) (written : ℕ) (p : Pipe)
    → p.state ≡ running
    → Finished (silence_result wr_err written) gen p (quiesce_finish gen wr_err written p)
unfolding quiesce_finish
quiesce_finish-Finished gen wr_err written p s = rw s (ground arith)

-- The caller's end on a pipeline that the worker left.
acked-Answered :
    (x : Between) (err : EspErr) (gen : ℕ) (p f : Pipe)
    → Finished err gen p f
    → p.ring_write_barrier ≡ true
    → p.ring.used ≡ 0
    → err ≡ silence_result x.wr_err x.written
    → Answered x ((p.control_inflight + 2 ^ 32 - 1) % 2 ^ 32) (quiesce_end x gen f)
unfolding quiesce_end await_ack after_ack may_reopen control_leave
acked-Answered x err gen p f k b u e =
    rw (produce_all-closed x.before_ack f (k.barred ∙ b))
      (ground (arith, k.acked, k.result, k.state, k.barred, k.ring, k.inflight))

flushed : Pipe → Pipe
flushed p = quiesce_flush (record p { pending_cmd = idle })

quiesce_worker_lem :
    (x : Between) (p : Pipe)
    → p.ring_write_barrier ≡ true
    → quiesce_worker x p ≡ quiesce_finish p.cmd_generation x.wr_err x.written (flushed p)
unfolding quiesce_worker take_command flushed quiesce_flush
quiesce_worker_lem x p b =
    ap
      (λ (q : Pipe).
        quiesce_finish q.cmd_generation x.wr_err x.written
          (produce_all x.during_silence (flushed q)))
      (produce_all-closed x.before_worker p b)
    ∙ ap (quiesce_finish p.cmd_generation x.wr_err x.written)
        (produce_all-closed x.during_silence (flushed p) b)

published : Pipe → Pipe
published p = record p { cmd_generation = (p.cmd_generation + 1) % 2 ^ 32; pending_cmd = quiesce }

publish_lem :
    (p : Pipe) → p.state ≡ running → p.task ≡ true → publish quiesce p ≡ (true, published p)
unfolding publish published
publish_lem p s t = ground arith

barred-Answered :
    (x : Between) (p : Pipe)
    → p.ring_write_barrier ≡ true
    → p.state ≡ running
    → p.task ≡ true
    → Answered x ((p.control_inflight + 2 ^ 32 - 1) % 2 ^ 32) (quiesce_barred x p)
unfolding quiesce_barred published flushed quiesce_flush ring_reset
barred-Answered x p b s t =
    let q = published p in
    rw (produce_all-closed x.before_publish p b, publish_lem p s t, quiesce_worker_lem x q b)
      (acked-Answered x (silence_result x.wr_err x.written) q.cmd_generation (flushed q) _
        (quiesce_finish-Finished q.cmd_generation x.wr_err x.written (flushed q) s) b refl refl)

control_admit_lem :
    (p : Pipe)
    → p.inited ≡ true
    → p.state ≡ running
    → control_admit quiesce p
      ≡ (none, record p { control_inflight = (p.control_inflight + 1) % 2 ^ 32 })
unfolding control_admit
control_admit_lem p i s = ground arith

quiesce_call-Answered :
    (x : Between) (p : Pipe)
    → p.inited ≡ true
    → p.task ≡ true
    → p.state ≡ running
    → p.control_inflight < 2 ^ 32
    → Answered x p.control_inflight (quiesce_call x p)
unfolding quiesce_call quiesce_admitted close_barrier
quiesce_call-Answered x p i t s c =
    let q = record p { control_inflight = (p.control_inflight + 1) % 2 ^ 32 } in
    let only_ring = produce_all-ring x.before_barrier q in
    let q1 = record (produce_all x.before_barrier q) { ring_write_barrier = true } in
    let inflight : (q1.control_inflight + 2 ^ 32 - 1) % 2 ^ 32 ≡ p.control_inflight =
      ap (λ (y : Pipe). (y.control_inflight + 2 ^ 32 - 1) % 2 ^ 32) only_ring ∙ omega arith in
    rw (control_admit_lem p i s) (
      subst (λ (n : ℕ). Answered x n (quiesce_barred x q1)) inflight
        (barred-Answered x q1 refl (ap (λ (y : Pipe). y.state) only_ring ∙ s)
          (ap (λ (y : Pipe). y.task) only_ring ∙ t)))

-- How the write of silence went, by the driver's answer and count, and what the call makes of it.
abbrev pub Ended : Between → EspErr × Pipe → Type 0
Ended x r =
    (x.wr_err ≡ EspErr.ok) × (x.written ≡ chunk_bytes) × (r.0 ≡ EspErr.ok) × (r.1.state ≡ quiesced)
    ⊎ (x.wr_err ≡ EspErr.ok)
      × (x.written ≢ chunk_bytes)
      × (r.0 ≡ EspErr.fail)
      × (r.1.state ≡ faulted)
    ⊎ (is_ok x.wr_err ≡ false) × (r.0 ≡ x.wr_err) × (r.1.state ≡ faulted)

pub record Quieted (x : Between) (inflight : ℕ) (r : EspErr × Pipe) : Type 0 where
  pub ended : Ended x r
  pub barred : r.1.ring_write_barrier ≡ true
  pub emptied : r.1.ring.used ≡ 0
  pub released : r.1.control_inflight ≡ inflight

Answered-Ended : (x : Between) (n : ℕ) (r : EspErr × Pipe) → Answered x n r → Ended x r
unfolding silence_result
Answered-Ended x n r a = elim (Bool-cases (is_ok x.wr_err)) [
  | inr bad ↦ inr (inr (bad, ground (arith, a.answer), ground (arith, a.state)))
  | inl good ↦ elim (==-cases x.written chunk_bytes) [
    | inl (t, e) ↦ inl (
      EspErr-ok_of_is_ok x.wr_err good,
      e,
      ground (arith, a.answer, EspErr-ok_of_is_ok x.wr_err good),
      ground (arith, a.state),
    )
    | inr (t, ne) ↦ inr (
        inl
          (EspErr-ok_of_is_ok x.wr_err good, ne, ground (arith, a.answer), ground (arith, a.state)))
  ]
]

-- A QUIESCE of a running pipeline whose worker answers in time ends by what the driver said of the
-- silence: with ESP_OK and QUIESCED where it took the whole chunk, with ESP_FAIL and FAULTED where it
-- said ESP_OK and took another number of bytes, and with its own error and FAULTED otherwise. Either
-- way the ring is empty, and the barrier stays closed to every producer, whatever producers write in
-- any gap between the sections of the caller and the worker; and the caller's reference is given back.
pub quiesce_call-Quieted :
    (x : Between) (p : Pipe)
    → p.inited ≡ true
    → p.task ≡ true
    → p.state ≡ running
    → p.control_inflight < 2 ^ 32
    → Quieted x p.control_inflight (quiesce_call x p)
quiesce_call-Quieted x p i t s c =
    let a = quiesce_call-Answered x p i t s c in
    record {
      ended = Answered-Ended x p.control_inflight (quiesce_call x p) a;
      barred = a.barred;
      emptied = a.emptied;
      released = a.released;
    }
