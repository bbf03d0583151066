-- ===== src/StateMachine.antt =====
-- The device state machine of firmware/components/michi_state/michi_state.c: its states, the
-- transition table and the event map. The bus and the task are in `Bus`.
pub mod Event
pub mod Bus
pub mod Authority
pub mod Setup
pub mod Lifecycle
pub mod Lookup
pub mod Errors
use michi_music_stream.Prelude.{
  ℕ, zero, suc, Bool, true, false, ◌&&◌, ◌||◌, Option, none, some, List, [], ◌∷◌, if◌then◌else◌,
  ◌==◌, ◌≡◌, refl,
}
use Event.{
  boot_complete, self_test_done, state_changed, error, recover, wifi_disconnected, wifi_provisioned,
  wifi_prov_failed, network_ready, pairing_started, pairing_window_closed, session_started,
  session_closed, session_paused, session_resumed, update_failed, transition_request,
}

-- `michi_state_t`, without its size marker.
pub data State : Type 0 where
  booting self_test unprovisioned provisioning wifi_connecting idle pairing session_pending : State
  buffering playing paused updating recoverable_error fatal_error : State

abbrev pub state_code : State → ℕ
state_code booting = 0
state_code self_test = 1
state_code unprovisioned = 2
state_code provisioning = 3
state_code wifi_connecting = 4
state_code idle = 5
state_code pairing = 6
state_code session_pending = 7
state_code buffering = 8
state_code playing = 9
state_code paused = 10
state_code updating = 11
state_code recoverable_error = 12
state_code fatal_error = 13

abbrev all_states : List State
all_states =
    booting ∷ self_test ∷ unprovisioned ∷ provisioning ∷ wifi_connecting ∷ idle ∷ pairing
    ∷ session_pending ∷ buffering ∷ playing ∷ paused ∷ updating ∷ recoverable_error ∷ fatal_error
    ∷ []

find_code : List State → ℕ → Option State
find_code [] n = none
find_code (s ∷ ss) n = if state_code s == n then some s else find_code ss n

-- The state that a C integer stands for; from MICHI_STATE_COUNT on it is out of range.
unfoldable pub state_of_code : ℕ → Option State
unfolding find_code
state_of_code n = find_code all_states n

abbrev pub mem_state : State → List State → Bool
mem_state s [] = false
mem_state s (t ∷ ts) = state_code s == state_code t || mem_state s ts

-- The bits of `s_transitions`.
abbrev pub transitions : State → List State
transitions booting = self_test ∷ fatal_error ∷ []
transitions self_test = idle ∷ recoverable_error ∷ fatal_error ∷ []
transitions unprovisioned =
    provisioning ∷ wifi_connecting ∷ pairing ∷ recoverable_error ∷ fatal_error ∷ []
transitions provisioning = wifi_connecting ∷ unprovisioned ∷ recoverable_error ∷ fatal_error ∷ []
transitions wifi_connecting = idle ∷ unprovisioned ∷ recoverable_error ∷ fatal_error ∷ []
transitions idle =
    unprovisioned ∷ provisioning ∷ wifi_connecting ∷ pairing ∷ session_pending ∷ updating
    ∷ recoverable_error ∷ fatal_error ∷ []
transitions pairing = idle ∷ recoverable_error ∷ fatal_error ∷ []
transitions session_pending = buffering ∷ idle ∷ recoverable_error ∷ fatal_error ∷ []
transitions buffering = playing ∷ idle ∷ recoverable_error ∷ fatal_error ∷ []
transitions playing = paused ∷ buffering ∷ idle ∷ updating ∷ recoverable_error ∷ fatal_error ∷ []
transitions paused = playing ∷ idle ∷ updating ∷ recoverable_error ∷ fatal_error ∷ []
transitions updating = idle ∷ recoverable_error ∷ fatal_error ∷ []
transitions recoverable_error = idle ∷ unprovisioned ∷ wifi_connecting ∷ fatal_error ∷ []
transitions fatal_error = []

-- `transition_valid` on states in range.
unfoldable pub transition_valid : State → State → Bool
transition_valid from to = mem_state to (transitions from)

-- `michi_event_map_t`.
pub record MapEntry : Type 0 where
  pub id : ℕ
  pub payload : ℕ
  pub any_data : Bool
  pub from : State
  pub target : State

abbrev any : ℕ → State → State → MapEntry
any id from target = record { id = id; payload = 0; any_data = true; from = from; target = target }

-- `s_event_map`.
abbrev pub event_map : List MapEntry
event_map =
    any boot_complete booting self_test
    ∷ any self_test_done self_test idle
    ∷ any recover recoverable_error idle
    ∷ any pairing_started idle pairing
    ∷ any pairing_started unprovisioned pairing
    ∷ any wifi_provisioned unprovisioned wifi_connecting
    ∷ any wifi_disconnected idle wifi_connecting
    ∷ any network_ready wifi_connecting idle
    ∷ any wifi_prov_failed wifi_connecting unprovisioned
    ∷ any pairing_window_closed pairing idle
    ∷ any session_started idle session_pending
    ∷ any session_started session_pending buffering
    ∷ any session_started buffering playing
    ∷ any session_closed session_pending idle
    ∷ any session_closed buffering idle
    ∷ any session_closed playing idle
    ∷ any session_closed paused idle
    ∷ any session_paused playing paused
    ∷ any session_resumed paused playing
    ∷ []

-- The loop of `find_event_map`.
unfoldable pub find_entry : List MapEntry → ℕ → ℕ → State → Option MapEntry
find_entry [] id payload from = none
find_entry (m ∷ ms) id payload from =
    if m.id == id && (state_code m.from == state_code from && (m.any_data || m.payload == payload))
    then some m
    else find_entry ms id payload from

unfoldable pub find_event_map : ℕ → ℕ → State → Option MapEntry
unfolding find_entry
find_event_map id payload from = find_entry event_map id payload from
