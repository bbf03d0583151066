-- ===== src/Session/Start.antt =====
-- `michi_session_init` and `michi_session_start` of michi_session.c.
use michi_music_stream.Prelude.{
  ℕ, ◌+◌, ◌*◌, Bool, true, false, ◌||◌, not, Option, none, some, List, [], ltb, if◌then◌else◌, ◌==◌,
  EspErr, is_ok,
}
use michi_music_stream.StateMachine.{updating, state_code}
use michi_music_stream.StateMachine.Event.{session_started}
use michi_music_stream.Session.{playing, SessionCtx, Statics, StartParams, blank, Devices}
use michi_music_stream.Session.Text.{b64url_encode, uuid_v4, copy_str}
use michi_music_stream.Session.Params.{validate_params}
use michi_music_stream.Session.Lease.{bump, post_event, expire_if_needed, reconcile_dead_engine}

abbrev pub lease_ms : ℕ
lease_ms = 30000

abbrev pub lease_us : ℕ
lease_us = lease_ms * 1000

abbrev pub token_bytes : ℕ
token_bytes = 32

-- `MICHI_SESSION_TOKEN_LEN`.
abbrev pub token_len : ℕ
token_len = 44

-- `michi_session_init`; the resources are the mutex, the timer, the queue and the task.
unfoldable pub init : Bool → Statics → EspErr × Statics
init resources_created s =
    if s.initialized
    then (EspErr.ok, s)
    else if not resources_created
    then (EspErr.no_mem, s)
    else (
      EspErr.ok,
      record {
        session = blank;
        active = false;
        startup_cleanup_pending = false;
        lease_expirations = 0;
        lease_generation = 0;
        watchdog_queue = [];
        initialized = true;
      },
    )

-- The session that a start builds, from what the devices answered.
unfoldable pub new_session : StartParams → ℕ → ℕ → List ℕ → List ℕ → ℕ → SessionCtx
new_session p port volume token id deadline = record blank {
  info = record blank.info {
    session_id = id;
    owner_controller_id = copy_str 64 p.owner_controller_id;
    state = playing;
    codec = copy_str 16 p.codec;
    sample_rate = p.sample_rate;
    bit_depth = p.bit_depth;
    channels = p.channels;
    packet_ms = p.packet_ms;
    payload_type = p.payload_type;
    ssrc = p.ssrc;
    source_addr = copy_str 16 p.source_ip;
    stream_port = port;
    buffer_ms = p.buffer_ms;
    volume = volume;
    paused = false;
    lease_remaining_ms = lease_ms;
  };
  session_token = token;
  lease_deadline_us = deadline;
}

-- The answer of a start: its status and the token written to the caller's buffer.
abbrev pub StartReply : Type 0
StartReply = EspErr × Option (List ℕ)

module _ {W : Type 0} (dev : Devices W) (p : StartParams) where
  -- The engine started, and the session cannot be had all the same.
  unfoldable pub roll_back : Statics → W → StartReply × Statics × W
  roll_back s w =
      let w1 = (dev.audio_stop w).1 in
      (
        (EspErr.invalid_state, none),
        record s { session = blank; startup_cleanup_pending = dev.audio_active w1 },
        w1,
      )

  unfoldable pub commit : EspErr → Statics → W → StartReply × Statics × W
  commit EspErr.ok s w = (
    (EspErr.ok, some s.session.session_token),
    record s { active = true },
    post_event dev session_started
        (post_event dev session_started (post_event dev session_started w)),
  )
  commit e s w = roll_back s w

  -- Volume, credential, session id, lease and watchdog.
  unfoldable pub establish : ℕ → Statics → W → StartReply × Statics × W
  establish port s w0 =
      let w1 = dev.volume_set p.volume w0 in
      let (bytes, w2) = dev.fill_random token_bytes w1 in
      let (a, w3) = dev.random w2 in
      let (b, w4) = dev.random w3 in
      let (c, w5) = dev.random w4 in
      let (d, w6) = dev.random w5 in
      let made =
        new_session p port (dev.volume_get w1) (b64url_encode bytes) (uuid_v4 a b c d)
          (dev.time w6 + lease_us) in
      let (err, w7) = dev.timer_start lease_us w6 in
      commit err (bump (record s { session = made })) w7

  unfoldable pub take_port : Option ℕ → Statics → W → StartReply × Statics × W
  take_port none s w = roll_back s w
  take_port (some port) s w = establish port s w

  unfoldable pub engine_started : EspErr → Statics → W → StartReply × Statics × W
  engine_started EspErr.ok s w = take_port (dev.audio_port w) s w
  engine_started e s w = ((e, none), record s { session = blank }, w)

  unfoldable pub launch : Statics → W → StartReply × Statics × W
  launch s w =
      let (err, w1) = dev.audio_start 0 p.ssrc p.source_ip p.buffer_ms w in
      engine_started err (record s { session = blank }) w1

  -- The engine of an earlier failed start is stopped first.
  unfoldable pub settle : Statics → W → StartReply × Statics × W
  settle s w =
      let (err, w1) = dev.audio_stop w in
      if not s.startup_cleanup_pending
      then launch s w
      else if dev.audio_active w1
      then ((if is_ok err then EspErr.invalid_state else err, none), s, w1)
      else launch (record s { startup_cleanup_pending = false }) w1

  unfoldable pub replace_dead : Bool × Statics × W → StartReply × Statics × W
  replace_dead (true, s, w) = settle s w
  replace_dead (false, s, w) = ((EspErr.invalid_state, none), s, w)

  unfoldable pub admit : Statics → W → StartReply × Statics × W
  admit s w = if s.active then replace_dead (reconcile_dead_engine dev s w) else settle s w

  unfoldable pub start_validated : EspErr → Statics → W → StartReply × Statics × W
  start_validated EspErr.ok s w =
      let (expired, s1, w1) = expire_if_needed dev s w in
      if not (dev.playback_allowed w)
      then ((EspErr.invalid_state, none), s, w)
      else if dev.ota_busy w || state_code (dev.state_get w) == state_code updating
      then ((EspErr.invalid_state, none), s, w)
      else admit s1 w1
  start_validated e s w = ((e, none), s, w)

  -- `michi_session_start`, with the size of the caller's token buffer.
  unfoldable pub start : ℕ → Statics → W → StartReply × Statics × W
  start out_token_len s w =
      if not s.initialized
      then ((EspErr.invalid_state, none), s, w)
      else if ltb out_token_len token_len
      then ((EspErr.invalid_arg, none), s, w)
      else start_validated (validate_params p) s w
