-- ===== src/StateMachine/Authority.antt =====
-- The transition table's authority in michi_state.c: the current state moves along the table only,
-- whatever is posted, requested and dispatched.
use michi_music_stream.Prelude.{
  ℕ, true, ◌||◌, Option, none, some, List, [], ◌∷◌, leb, ltb, ◌==◌, ◌≡◌, ◌⊎◌, inl, inr, refl, sym,
  subst, Bool-cases, length, ◌∙◌, EspErr,
}
use michi_music_stream.StateMachine.{
  State, fatal_error, state_of_code, transition_valid, MapEntry, find_event_map,
}
use michi_music_stream.StateMachine.Event.{transition_request, state_changed}
use michi_music_stream.StateMachine.Bus.{
  Fsm, BusEvent, capture_error_event, apply_transition, is_error_event, grant_request,
  capture_cause, route, grant_in_range, handle_transition_request, follow_map, handle_event,
  dispatch, take_event, enqueue, count_drop, post, request, request_in_range, report_error, Action,
  posts, requests, reports, dispatches, act, run,
}

-- `MovesTo s t`: the state stays or takes one transition of the table.
abbrev pub MovesTo : State → State → Type 0
MovesTo s t = (s ≡ t) ⊎ (transition_valid s t ≡ true)

grant_request-MovesTo : (f : Fsm) (t : State) → MovesTo f.current (grant_request f t).0.current
unfolding grant_request apply_transition
grant_request-MovesTo f t = elim (Bool-cases (transition_valid f.current t)) [
  | inl e ↦ rw e (inr e)
  | inr e ↦ rw e (inl refl)
]

follow_map-MovesTo : (f : Fsm) (m : Option MapEntry) → MovesTo f.current (follow_map f m).0.current
unfolding follow_map apply_transition
follow_map-MovesTo f none = inl refl
follow_map-MovesTo f (some m) = elim (Bool-cases (transition_valid f.current m.target)) [
  | inl e ↦ rw e (inr e)
  | inr e ↦ rw e (inl refl)
]

grant_in_range-MovesTo :
    (f : Fsm) (t : Option State) → MovesTo f.current (grant_in_range f t).0.current
unfolding grant_in_range
grant_in_range-MovesTo f none = inl refl
grant_in_range-MovesTo f (some t) = grant_request-MovesTo f t

capture_cause-current : (f : Fsm) (ev : BusEvent) → (capture_cause f ev).current ≡ f.current
unfolding capture_cause capture_error_event
capture_cause-current f ev = elim (Bool-cases (is_error_event ev.id)) [
  | inl e ↦ rw e refl
  | inr e ↦ rw e refl
]

route-MovesTo : (f : Fsm) (ev : BusEvent) → MovesTo f.current (route f ev).0.current
unfolding route handle_transition_request
route-MovesTo f ev = elim (Bool-cases (ev.id == transition_request)) [
  | inl e ↦ rw e (grant_in_range-MovesTo f (state_of_code ev.payload))
  | inr e ↦ rw e (follow_map-MovesTo f (find_event_map ev.id ev.payload f.current))
]

handle_event-MovesTo : (f : Fsm) (ev : BusEvent) → MovesTo f.current (handle_event f ev).0.current
unfolding handle_event
handle_event-MovesTo f ev =
    subst (λ s. MovesTo s (route (capture_cause f ev) ev).0.current) (capture_cause-current f ev)
      (route-MovesTo (capture_cause f ev) ev)

dispatch-MovesTo : (f : Fsm) → MovesTo f.current (dispatch f).0.current
unfolding dispatch take_event
dispatch-MovesTo f = go f.queue
  where
    go : (q : List BusEvent) → MovesTo f.current (take_event f q).0.current
    go [] = inl refl
    go (ev ∷ rest) = handle_event-MovesTo (record f { queue = rest; drops = 0 }) ev

enqueue-current : (n : ℕ) (f : Fsm) (ev : BusEvent) → (enqueue n f ev).1.current ≡ f.current
unfolding enqueue
enqueue-current n f ev = elim (Bool-cases (ltb (length f.queue) n)) [
  | inl e ↦ rw e refl
  | inr e ↦ rw e refl
]

count_drop-current : (n : ℕ) (r : EspErr × Fsm) → (count_drop n r).1.current ≡ r.1.current
unfolding count_drop
count_drop-current n (EspErr.ok, f) = refl
count_drop-current n (e, f) = refl

post-current : (n : ℕ) (f : Fsm) (id payload : ℕ) → (post n f id payload).1.current ≡ f.current
unfolding post
post-current n f id payload = elim (Bool-cases (id == state_changed || leb transition_request id)) [
  | inl e ↦ rw e refl
  | inr e ↦ rw e (elim (Bool-cases f.initialized) [
    | inl i ↦ simp i (count_drop-current n (enqueue n f sent) ∙ enqueue-current n f sent)
    | inr i ↦ simp i
  ])
]
  where
    sent : BusEvent
    sent = record { id = id; payload = payload; from = 0 }

request_in_range-current :
    (n : ℕ) (f : Fsm) (t : Option State) → (request_in_range n f t).1.current ≡ f.current
unfolding request_in_range
request_in_range-current n f none = refl
request_in_range-current n f (some t) = elim (Bool-cases (transition_valid f.current t)) [
  | inl e ↦ rw e (enqueue-current n f _)
  | inr e ↦ rw e refl
]

request-current : (n : ℕ) (f : Fsm) (code : ℕ) → (request n f code).1.current ≡ f.current
unfolding request
request-current n f code = elim (Bool-cases f.initialized) [
  | inl i ↦ simp i (request_in_range-current n f (state_of_code code))
  | inr i ↦ simp i
]

report_error-current :
    (n : ℕ) (f : Fsm) (id payload : ℕ) → (report_error n f id payload).1.current ≡ f.current
unfolding report_error capture_error_event
report_error-current n f id payload = elim (Bool-cases (is_error_event id)) [
  | inl e ↦ rw e (post-current n (capture_error_event f id payload) id payload)
  | inr e ↦ rw e refl
]

act-MovesTo : (n : ℕ) (f : Fsm) (a : Action) → MovesTo f.current (act n f a).current
unfolding act
act-MovesTo n f (posts id payload) = inl (sym (post-current n f id payload))
act-MovesTo n f (requests code unused) = inl (sym (request-current n f code))
act-MovesTo n f (reports id payload) = inl (sym (report_error-current n f id payload))
act-MovesTo n f dispatches = dispatch-MovesTo f

-- `IsReachable s t`: a chain of table transitions leads from s to t.
pub data IsReachable : State → State → Type 0 where
  stay : {s : State} → IsReachable s s
  move : {s t u : State} → transition_valid s t ≡ true → IsReachable t u → IsReachable s u

move_or_stay : {s t : State} (u : State) → MovesTo s t → IsReachable t u → IsReachable s u
move_or_stay u (inl e) r = subst (λ x. IsReachable x u) (sym e) r
move_or_stay u (inr v) r = move v r

-- Whatever is posted, requested, reported and dispatched, in any order and on any queue, the state
-- moves along chains of the transition table only.
pub run-IsReachable :
    (queue_len : ℕ) (f : Fsm) (as' : List Action)
    → IsReachable f.current (run queue_len f as').current
unfolding run
run-IsReachable n f [] = stay
run-IsReachable n f (a ∷ as') =
    move_or_stay (run n f (a ∷ as')).current (act-MovesTo n f a) (run-IsReachable n (act n f a) as')

stays_fatal : {t : State} → IsReachable fatal_error t → t ≡ fatal_error
unfolding transition_valid
stays_fatal stay = refl
stays_fatal (move v r) = cc

-- FATAL_ERROR is terminal under any sequence of posts, requests, reports and dispatches.
pub run-fatal_error :
    (queue_len : ℕ) (f : Fsm) (as' : List Action)
    → f.current ≡ fatal_error
    → (run queue_len f as').current ≡ fatal_error
run-fatal_error n f as' h =
    stays_fatal (subst (λ s. IsReachable s (run n f as').current) h (run-IsReachable n f as'))
