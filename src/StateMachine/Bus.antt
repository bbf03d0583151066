-- ===== src/StateMachine/Bus.antt =====
-- The event bus and the task of michi_state.c: posting, requests, dispatch, error capture and
-- observers. The FreeRTOS queue is a bounded list, its length and the observer table's size are the
-- configuration's.
use michi_music_stream.Prelude.{
  ℕ, ◌+◌, ◌%◌, ◌^◌, Bool, true, false, ◌||◌, not, Option, none, some, List, [], ◌∷◌, ◌++◌, ltb, leb,
  if◌then◌else◌, ◌==◌, EspErr, length,
}
use michi_music_stream.StateMachine.{
  State, recoverable_error, fatal_error, state_code, state_of_code, transition_valid, MapEntry,
  find_event_map,
}
use michi_music_stream.StateMachine.Event.{error, update_failed, state_changed, transition_request}

-- `michi_event_t`.
pub record BusEvent : Type 0 where
  pub id : ℕ
  pub payload : ℕ
  pub from : ℕ

-- The last-error slot; `target` is `none` for MICHI_STATE_COUNT.
pub record LastError : Type 0 where
  pub recorded : Bool
  pub from_request : Bool
  pub event : ℕ
  pub payload : ℕ
  pub target : Option State

-- `michi_observer_t`; the function pointer is a number, the filter 0 takes all events.
pub record Observer : Type 0 where
  pub filter : ℕ
  pub fn : ℕ

-- The statics of michi_state.c.
pub record Fsm : Type 0 where
  pub queue : List BusEvent
  pub current : State
  pub initialized : Bool
  pub drops : ℕ
  pub last_error : LastError
  pub observers : List Observer

-- A call of an observer with an event.
abbrev pub Notice : Type 0
Notice = ℕ × BusEvent

unfoldable pub notices : List Observer → BusEvent → List Notice
notices [] ev = []
notices (o ∷ os) ev =
    if o.filter == 0 || o.filter == ev.id then (o.fn, ev) ∷ notices os ev else notices os ev

unfoldable pub capture_error_event : Fsm → ℕ → ℕ → Fsm
capture_error_event f id payload = record f {
  last_error = record {
    recorded = true;
    from_request = false;
    event = id;
    payload = payload;
    target = none;
  };
}

unfoldable pub capture_error_request : Fsm → State → Fsm
capture_error_request f target =
    if not f.last_error.recorded || f.last_error.from_request
    then record f {
      last_error = record {
        recorded = true;
        from_request = true;
        event = error;
        payload = 0;
        target = some target;
      };
    }
    else record f { last_error = record f.last_error { target = some target } }

unfoldable pub apply_transition : Fsm → State → Fsm × List Notice
apply_transition f target = (
  record f { current = target },
  notices f.observers
      (record { id = state_changed; payload = state_code target; from = state_code f.current }),
)

unfoldable pub is_error_state : State → Bool
is_error_state recoverable_error = true
is_error_state fatal_error = true
is_error_state _ = false

-- `handle_transition_request` on a target in range.
unfoldable pub grant_request : Fsm → State → Fsm × List Notice
unfolding is_error_state
grant_request f target =
    if not (transition_valid f.current target)
    then (f, [])
    else apply_transition (if is_error_state target then capture_error_request f target else f)
        target

unfoldable pub grant_in_range : Fsm → Option State → Fsm × List Notice
grant_in_range f none = (f, [])
grant_in_range f (some t) = grant_request f t

unfoldable pub handle_transition_request : Fsm → ℕ → Fsm × List Notice
handle_transition_request f code = grant_in_range f (state_of_code code)

-- What follows the broadcast of an event.
unfoldable pub follow_map : Fsm → Option MapEntry → Fsm × List Notice
follow_map f none = (f, [])
follow_map f (some m) =
    if transition_valid f.current m.target then apply_transition f m.target else (f, [])

abbrev pub is_error_event : ℕ → Bool
is_error_event id = id == error || id == update_failed

unfoldable pub capture_cause : Fsm → BusEvent → Fsm
capture_cause f ev = if is_error_event ev.id then capture_error_event f ev.id ev.payload else f

-- The broadcast stamps the state of the dispatch on the event.
unfoldable pub broadcast : Fsm → BusEvent → List Notice
broadcast f ev = notices f.observers (record ev { from = state_code f.current })

unfoldable pub route : Fsm → BusEvent → Fsm × List Notice
route f ev =
    let mapped = follow_map f (find_event_map ev.id ev.payload f.current) in
    if ev.id == transition_request
    then handle_transition_request f ev.payload
    else (mapped.0, broadcast f ev ++ mapped.1)

unfoldable pub handle_event : Fsm → BusEvent → Fsm × List Notice
handle_event f ev = route (capture_cause f ev) ev

unfoldable pub take_event : Fsm → List BusEvent → Fsm × List Notice
take_event f [] = (f, [])
take_event f (ev ∷ rest) = handle_event (record f { queue = rest; drops = 0 }) ev

-- One round of `state_task`: a receive that times out does nothing.
unfoldable pub dispatch : Fsm → Fsm × List Notice
unfolding take_event
dispatch f = take_event f f.queue

-- What the producers and the task do, in any order.
pub data Action : Type 0 where
  posts requests reports : ℕ → ℕ → Action
  dispatches : Action

module _ (queue_len : ℕ) where
  unfoldable pub enqueue : Fsm → BusEvent → EspErr × Fsm
  enqueue f ev =
      if ltb (length f.queue) queue_len
      then (EspErr.ok, record f { queue = f.queue ++ ev ∷ [] })
      else (EspErr.timeout, f)

  unfoldable pub count_drop : EspErr × Fsm → EspErr × Fsm
  count_drop (EspErr.ok, f) = (EspErr.ok, f)
  count_drop (e, f) = (e, record f { drops = (f.drops + 1) % 2 ^ 32 })

  -- `michi_state_post`, and `michi_state_post_from_isr`, which differs in its locks only.
  unfoldable pub post : Fsm → ℕ → ℕ → EspErr × Fsm
  post f id payload =
      if id == state_changed || leb transition_request id
      then (EspErr.invalid_arg, f)
      else if not f.initialized
      then (EspErr.invalid_state, f)
      else count_drop (enqueue f (record { id = id; payload = payload; from = 0 }))

  unfoldable pub request_in_range : Fsm → Option State → EspErr × Fsm
  request_in_range f none = (EspErr.invalid_arg, f)
  request_in_range f (some target) =
      if not (transition_valid f.current target)
      then (EspErr.invalid_state, f)
      else enqueue f (record { id = transition_request; payload = state_code target; from = 0 })

  unfoldable pub request : Fsm → ℕ → EspErr × Fsm
  request f code =
      if not f.initialized
      then (EspErr.invalid_state, f)
      else request_in_range f (state_of_code code)

  -- The broadcast is best effort.
  unfoldable pub report_error : Fsm → ℕ → ℕ → EspErr × Fsm
  report_error f event payload =
      if is_error_event event
      then (EspErr.ok, (post (capture_error_event f event payload) event payload).1)
      else (EspErr.invalid_arg, f)

  unfoldable pub act : Fsm → Action → Fsm
  act f (posts id payload) = (post f id payload).1
  act f (requests code unused) = (request f code).1
  act f (reports event payload) = (report_error f event payload).1
  act f dispatches = (dispatch f).0

  unfoldable pub run : Fsm → List Action → Fsm
  run f [] = f
  run f (a ∷ as') = run (act f a) as'
