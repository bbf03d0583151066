-- ===== src/StateMachine/Setup.antt =====
-- Initialization, observers and the error query of michi_state.c.
use michi_music_stream.Prelude.{
  ℕ, Bool, true, false, ◌&&◌, ◌||◌, not, Option, none, some, List, [], ◌∷◌, ◌++◌, ltb,
  if◌then◌else◌, ◌==◌, length, EspErr,
}
use michi_music_stream.StateMachine.{booting}
use michi_music_stream.StateMachine.Bus.{Fsm, Observer, LastError}

unfoldable pub has_observer : List Observer → ℕ → ℕ → Bool
has_observer [] filter fn = false
has_observer (o ∷ os) filter fn = (o.fn == fn && o.filter == filter) || has_observer os filter fn

-- `michi_state_register_observer` on a function; nothing unregisters, so that the table's free slots
-- are its last ones.
unfoldable pub register_observer : ℕ → Fsm → ℕ → ℕ → EspErr × Fsm
unfolding has_observer
register_observer max_observers f filter fn =
    if has_observer f.observers filter fn
    then (EspErr.ok, f)
    else if ltb (length f.observers) max_observers
    then (
      EspErr.ok,
      record f { observers = f.observers ++ record { filter = filter; fn = fn } ∷ [] },
    )
    else (EspErr.no_mem, f)

-- `michi_state_init`, with whether the queue and the task are created.
unfoldable pub init : Bool → Bool → Fsm → EspErr × Fsm
init queue_created task_created f =
    if f.initialized
    then (EspErr.ok, f)
    else if not queue_created
    then (EspErr.no_mem, f)
    else if not task_created
    then (EspErr.no_mem, record f { current = booting; queue = [] })
    else (EspErr.ok, record f { current = booting; queue = []; initialized = true })

unfoldable pub get_last_error : Fsm → EspErr × Option LastError
get_last_error f =
    if f.last_error.recorded then (EspErr.ok, some f.last_error) else (EspErr.not_found, none)
