-- ===== src/StateMachine/Lifecycle.antt =====
-- The session events of michi_state.c's event map.
use michi_music_stream.Prelude.{ℕ, Bool, true, false, ◌≡◌, refl, if◌then◌else◌}
use michi_music_stream.StateMachine.{
  State, booting, self_test, unprovisioned, provisioning, wifi_connecting, idle, pairing,
  session_pending, buffering, playing, paused, updating, recoverable_error, fatal_error,
  find_event_map, find_entry, transition_valid,
}
use michi_music_stream.StateMachine.Event.{session_started, session_closed}
use michi_music_stream.StateMachine.Bus.{
  Fsm, handle_event, capture_cause, route, follow_map, apply_transition,
}

abbrev pub is_session : State → Bool
is_session session_pending = true
is_session buffering = true
is_session playing = true
is_session paused = true
is_session s = false

-- The next step of a starting session.
abbrev pub after_started : State → State
after_started idle = session_pending
after_started session_pending = buffering
after_started buffering = playing
after_started s = s

abbrev pub event_in : Fsm → State → ℕ → ℕ → State
event_in f s id payload =
    (handle_event (record f { current = s })
      (record { id = id; payload = payload; from = 0 })).0.current

-- SESSION_CLOSED takes every session state, and no other, to IDLE, and SESSION_STARTED advances one
-- step along IDLE, SESSION_PENDING, BUFFERING, PLAYING and changes no other state.
pub handle_event-session :
    (f : Fsm) (s : State) (payload : ℕ)
    → (event_in f s session_closed payload ≡ (if is_session s then idle else s))
      × (event_in f s session_started payload ≡ after_started s)
unfolding handle_event capture_cause route follow_map apply_transition find_event_map find_entry
    transition_valid
handle_event-session f booting payload = (refl, refl)
handle_event-session f self_test payload = (refl, refl)
handle_event-session f unprovisioned payload = (refl, refl)
handle_event-session f provisioning payload = (refl, refl)
handle_event-session f wifi_connecting payload = (refl, refl)
handle_event-session f idle payload = (refl, refl)
handle_event-session f pairing payload = (refl, refl)
handle_event-session f session_pending payload = (refl, refl)
handle_event-session f buffering payload = (refl, refl)
handle_event-session f playing payload = (refl, refl)
handle_event-session f paused payload = (refl, refl)
handle_event-session f updating payload = (refl, refl)
handle_event-session f recoverable_error payload = (refl, refl)
handle_event-session f fatal_error payload = (refl, refl)
