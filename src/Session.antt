-- ===== src/Session.antt =====
-- The audio session of firmware/components/michi_session: its types, its statics and the devices it
-- calls. The text routines are in `Text`, the parameters in `Params`, the teardown and the lease in
-- `Lease`, the calls in `Start`, `Calls` and `Queries`.
pub mod Text
pub mod Params
pub mod Lease
pub mod Start
pub mod Calls
pub mod Queries
pub mod Closing
pub mod Refusal
pub mod Renewal
pub mod Trace
pub mod Access
pub mod Starting
pub mod Expired
pub mod Wiped
pub mod WipedCalls
pub mod Histories
pub mod Credential
use michi_music_stream.Prelude.{ℕ, Bool, true, false, Option, none, some, List, [], EspErr}
use michi_music_stream.StateMachine.{State}

-- `michi_session_state_t`.
pub data SessionState : Type 0 where
  starting playing paused stopping : SessionState

-- `michi_session_info_t`; a string is the list of its bytes before the NUL.
pub record Info : Type 0 where
  pub session_id : List ℕ
  pub owner_controller_id : List ℕ
  pub state : SessionState
  pub codec : List ℕ
  pub sample_rate : ℕ
  pub bit_depth : ℕ
  pub channels : ℕ
  pub packet_ms : ℕ
  pub payload_type : ℕ
  pub ssrc : ℕ
  pub source_addr : List ℕ
  pub stream_port : ℕ
  pub buffer_ms : ℕ
  pub volume : ℕ
  pub paused : Bool
  pub metadata_revision : ℕ
  pub lease_remaining_ms : ℕ
  pub packets_received : ℕ
  pub packets_rejected : ℕ
  pub packets_lost : ℕ
  pub underruns : ℕ

-- `session_ctx_t`; the monotonic clock starts at 0, so that a time is a natural number.
pub record SessionCtx : Type 0 where
  pub info : Info
  pub session_token : List ℕ
  pub last_heartbeat_seq : ℕ
  pub heartbeat_seq_valid : Bool
  pub last_metadata_revision : ℕ
  pub lease_deadline_us : ℕ

abbrev pub blank_info : Info
blank_info = record {
  session_id = [];
  owner_controller_id = [];
  state = starting;
  codec = [];
  sample_rate = 0;
  bit_depth = 0;
  channels = 0;
  packet_ms = 0;
  payload_type = 0;
  ssrc = 0;
  source_addr = [];
  stream_port = 0;
  buffer_ms = 0;
  volume = 0;
  paused = false;
  metadata_revision = 0;
  lease_remaining_ms = 0;
  packets_received = 0;
  packets_rejected = 0;
  packets_lost = 0;
  underruns = 0;
}

-- `s_session` after `memset(&s_session, 0, sizeof(s_session))`.
abbrev pub blank : SessionCtx
blank = record {
  info = blank_info;
  session_token = [];
  last_heartbeat_seq = 0;
  heartbeat_seq_valid = false;
  last_metadata_revision = 0;
  lease_deadline_us = 0;
}

-- `michi_session_start_params_t`.
pub record StartParams : Type 0 where
  pub owner_controller_id : List ℕ
  pub codec : List ℕ
  pub sample_rate : ℕ
  pub bit_depth : ℕ
  pub channels : ℕ
  pub packet_ms : ℕ
  pub buffer_ms : ℕ
  pub payload_type : ℕ
  pub ssrc : ℕ
  pub volume : ℕ
  pub source_ip : List ℕ

-- The statics of michi_session.c: the session, its flags and counters and the watchdog's queue.
pub record Statics : Type 0 where
  pub session : SessionCtx
  pub active : Bool
  pub startup_cleanup_pending : Bool
  pub lease_expirations : ℕ
  pub lease_generation : ℕ
  pub watchdog_queue : List ℕ
  pub initialized : Bool

-- The part of `michi_audio_metrics_t` that the session reads.
pub record Metrics : Type 0 where
  pub received : ℕ
  pub drops_malformed : ℕ
  pub drops_pt_other : ℕ
  pub drops_ssrc_filtered : ℕ
  pub drops_source_ip : ℕ
  pub drops_payload_geometry : ℕ
  pub lost : ℕ
  pub underruns : ℕ

-- What the session calls: the audio engine, the one-shot watchdog timer, the clock, the operations
-- gate, the OTA module, the state machine, the volume, the display and the random source. `W` is
-- their joint state.
pub record Devices (W : Type 0) : Type 0 where
  pub audio_start : ℕ → ℕ → List ℕ → ℕ → W → EspErr × W
  pub audio_stop : W → EspErr × W
  pub audio_active : W → Bool
  pub audio_port : W → Option ℕ
  pub audio_set_paused : Bool → W → EspErr × W
  pub audio_metrics : W → Option Metrics
  pub timer_start : ℕ → W → EspErr × W
  pub timer_restart : ℕ → W → EspErr × W
  pub timer_stop : W → W
  pub time : W → ℕ
  pub playback_allowed : W → Bool
  pub ota_busy : W → Bool
  pub state_get : W → State
  pub state_post : ℕ → W → EspErr × W
  pub volume_set : ℕ → W → W
  pub volume_get : W → ℕ
  pub display_clear : W → EspErr × W
  pub display_update : List ℕ → List ℕ → List ℕ → W → EspErr × W
  pub random : W → ℕ × W
  pub fill_random : ℕ → W → List ℕ × W
