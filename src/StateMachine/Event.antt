-- ===== src/StateMachine/Event.antt =====
-- The event ids of firmware/components/michi_state/include/michi_state.h.
use michi_music_stream.Prelude.{ℕ}

-- `michi_event_id_t` is an integer: ids between the last named one and TRANSITION_REQUEST are
-- postable too.
abbrev pub boot_complete : ℕ
boot_complete = 1

abbrev pub self_test_done : ℕ
self_test_done = 2

abbrev pub state_changed : ℕ
state_changed = 3

abbrev pub error : ℕ
error = 4

abbrev pub recover : ℕ
recover = 5

abbrev pub wifi_disconnected : ℕ
wifi_disconnected = 7

abbrev pub wifi_provisioned : ℕ
wifi_provisioned = 8

abbrev pub wifi_prov_failed : ℕ
wifi_prov_failed = 9

abbrev pub network_ready : ℕ
network_ready = 10

abbrev pub pairing_started : ℕ
pairing_started = 11

abbrev pub pairing_window_closed : ℕ
pairing_window_closed = 12

abbrev pub session_started : ℕ
session_started = 13

abbrev pub session_closed : ℕ
session_closed = 14

abbrev pub session_paused : ℕ
session_paused = 15

abbrev pub session_resumed : ℕ
session_resumed = 16

abbrev pub update_failed : ℕ
update_failed = 20

abbrev pub transition_request : ℕ
transition_request = 0x100
