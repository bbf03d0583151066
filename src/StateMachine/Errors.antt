-- ===== src/StateMachine/Errors.antt =====
-- The last-error slot of michi_state.c.
use michi_music_stream.Prelude.{
  ℕ, true, false, none, ltb, ◌≡◌, refl, inl, inr, leb, ◌⊎◌, ◌∙◌, Bool-cases, length, EspErr, ◌==◌,
  ◌||◌,
}
use michi_music_stream.StateMachine.Bus.{
  Fsm, BusEvent, capture_error_event, is_error_event, enqueue, count_drop, post, report_error,
}
use michi_music_stream.StateMachine.Event.{transition_request, state_changed}

count_drop-last_error : (n : ℕ) (r : EspErr × Fsm) → (count_drop n r).1.last_error ≡ r.1.last_error
unfolding count_drop
count_drop-last_error n (EspErr.ok, f) = refl
count_drop-last_error n (e, f) = refl

enqueue-last_error :
    (n : ℕ) (f : Fsm) (ev : BusEvent) → (enqueue n f ev).1.last_error ≡ f.last_error
unfolding enqueue
enqueue-last_error n f ev = elim (Bool-cases (ltb (length f.queue) n)) [
  | inl e ↦ rw e refl
  | inr e ↦ rw e refl
]

post-last_error :
    (n : ℕ) (f : Fsm) (id payload : ℕ) → (post n f id payload).1.last_error ≡ f.last_error
unfolding post
post-last_error n f id payload =
    elim (Bool-cases (id == state_changed || leb transition_request id)) [
      | inl e ↦ rw e refl
      | inr e ↦ rw e (elim (Bool-cases f.initialized) [
        | inl i ↦ simp i (count_drop-last_error n (enqueue n f sent) ∙ enqueue-last_error n f sent)
        | inr i ↦ simp i
      ])
    ]
  where
    sent : BusEvent
    sent = record { id = id; payload = payload; from = 0 }

-- A reported error is recorded, code and payload, whether or not the broadcast finds room in the
-- queue or the state machine runs; any other event id is refused and changes nothing.
pub report_error-last_error :
    (queue_len : ℕ) (f : Fsm) (id payload : ℕ)
    → ((is_error_event id ≡ true)
        × (report_error queue_len f id payload).0 ≡ EspErr.ok
        × (report_error queue_len f id payload).1.last_error ≡ record {
          recorded = true;
          from_request = false;
          event = id;
          payload = payload;
          target = none;
        })
      ⊎ ((is_error_event id ≡ false)
          × report_error queue_len f id payload ≡ (EspErr.invalid_arg, f))
unfolding report_error capture_error_event
report_error-last_error n f id payload = elim (Bool-cases (is_error_event id)) [
  | inl e ↦
      inl (e, rw e refl, rw e (post-last_error n (capture_error_event f id payload) id payload))
  | inr e ↦ inr (e, rw e refl)
]
