-- ===== src/Session/Queries.antt =====
-- The calls that ask about a session or keep it alive in michi_session.c: get_info, active,
-- lease_expirations, heartbeat and set_now_playing.
use michi_music_stream.Prelude.{
  ℕ, ◌+◌, ◌-◌, ◌/◌, ◌%◌, ◌^◌, Bool, true, false, ◌&&◌, ◌||◌, not, Option, none, some, List, [], leb,
  if◌then◌else◌, ◌==◌, str_eq, EspErr,
}
use michi_music_stream.Session.{SessionCtx, Info, Statics, Metrics, Devices}
use michi_music_stream.Session.Text.{token_valid, token_matches}
use michi_music_stream.Session.Lease.{bump, expire_if_needed, reconcile_dead_engine, reconcile_fsm}
use michi_music_stream.Session.Start.{lease_ms, lease_us}
use michi_music_stream.Session.Calls.{text, is_null}

-- `michi_session_heartbeat_result_t`.
pub data HeartbeatResult : Type 0 where
  ok no_session token_mismatch session_mismatch sequence_replay source_mismatch : HeartbeatResult
  watchdog_error : HeartbeatResult

-- `michi_session_metadata_result_t`.
pub data MetadataResult : Type 0 where
  ok no_session session_mismatch token_mismatch owner_mismatch stale : MetadataResult
  display_unavailable : MetadataResult

-- `heartbeat_seq_valid` and the deadline of an accepted heartbeat.
unfoldable pub renew : ℕ → ℕ → Statics → Statics
renew sequence now s = record (bump s) {
  session = record s.session {
    last_heartbeat_seq = sequence;
    heartbeat_seq_valid = true;
    lease_deadline_us = now + lease_us;
    info = record s.session.info { lease_remaining_ms = lease_ms };
  };
}

-- The counters of an answer, from the engine where it has any.
unfoldable pub with_metrics : Option Metrics → Info → Info
with_metrics none i = i
with_metrics (some m) i = record i {
  packets_received = m.received;
  packets_rejected =
      (m.drops_malformed + m.drops_pt_other + m.drops_ssrc_filtered + m.drops_source_ip
        + m.drops_payload_geometry)
      % 2 ^ 32;
  packets_lost = m.lost;
  underruns = m.underruns;
}

-- The answer of `michi_session_get_info` at a time, without the counters.
unfoldable pub info_at : ℕ → SessionCtx → Info
info_at now c = record c.info {
  metadata_revision = c.last_metadata_revision;
  lease_remaining_ms = (c.lease_deadline_us - now) / 1000 % 2 ^ 32;
}

unfoldable pub is_replay : ℕ → SessionCtx → Bool
is_replay sequence c = c.heartbeat_seq_valid && leb sequence c.last_heartbeat_seq

unfoldable pub wrong_peer : Option (List ℕ) → SessionCtx → Bool
wrong_peer peer c =
    is_null peer
    || (str_eq (text peer) []
        || (str_eq c.info.source_addr [] || not (str_eq (text peer) c.info.source_addr)))

module _ {W : Type 0} (dev : Devices W) where
  unfoldable pub describe : Bool × Statics × W → (EspErr × Option Info) × Statics × W
  describe (true, s, w) = ((EspErr.invalid_state, none), s, w)
  describe (false, s, w) =
      let w1 = reconcile_fsm dev w in
      (
        (EspErr.ok, some (with_metrics (dev.audio_metrics w1) (info_at (dev.time w) s.session))),
        s,
        w1,
      )

  unfoldable pub get_info_live : Bool × Statics × W → (EspErr × Option Info) × Statics × W
  get_info_live (expired, s, w) =
      if expired || not s.active
      then ((EspErr.invalid_state, none), s, w)
      else describe (reconcile_dead_engine dev s w)

  unfoldable pub get_info : Statics → W → (EspErr × Option Info) × Statics × W
  get_info s w =
      if not s.initialized
      then ((EspErr.invalid_state, none), s, w)
      else get_info_live (expire_if_needed dev s w)

  unfoldable pub active : Statics → W → Bool × Statics × W
  active s w =
      let (expired, s1, w1) = expire_if_needed dev s w in
      let (dead, s2, w2) = reconcile_dead_engine dev s1 w1 in
      if not s.initialized then (false, s, w) else (s2.active, s2, w2)

  unfoldable pub lease_expirations : Statics → ℕ
  lease_expirations s = if s.initialized then s.lease_expirations else 0

  unfoldable pub renewed : EspErr → ℕ → Statics → W → HeartbeatResult × Statics × W
  renewed EspErr.ok sequence s w = (HeartbeatResult.ok, renew sequence (dev.time w) s, w)
  renewed e sequence s w = (HeartbeatResult.watchdog_error, s, w)

  unfoldable pub heartbeat_live :
      List ℕ → List ℕ → ℕ → Option (List ℕ) → Bool × Statics × W → HeartbeatResult × Statics × W
  heartbeat_live token id sequence peer (true, s, w) = (HeartbeatResult.no_session, s, w)
  heartbeat_live token id sequence peer (false, s, w) =
      let (err, w1) = dev.timer_restart lease_us w in
      if not (token_matches token s.session.session_token)
      then (HeartbeatResult.token_mismatch, s, w)
      else if not (str_eq id s.session.info.session_id)
      then (HeartbeatResult.session_mismatch, s, w)
      else if wrong_peer peer s.session
      then (HeartbeatResult.source_mismatch, s, w)
      else if is_replay sequence s.session
      then (HeartbeatResult.sequence_replay, s, w)
      else renewed err sequence s w1

  -- The live session that a heartbeat or a metadata update is for: whether there is none.
  unfoldable pub find_session : Bool × Statics × W → Bool × Statics × W
  find_session (expired, s, w) =
      if expired || not s.active then (true, s, w) else reconcile_dead_engine dev s w

  unfoldable pub heartbeat :
      Option (List ℕ)
      → Option (List ℕ)
      → ℕ
      → Option (List ℕ)
      → Statics
      → W
      → HeartbeatResult × Statics × W
  heartbeat token id sequence peer s w =
      if not s.initialized
      then (HeartbeatResult.no_session, s, w)
      else if not (token_valid token)
      then (HeartbeatResult.token_mismatch, s, w)
      else if is_null id
      then (HeartbeatResult.session_mismatch, s, w)
      else heartbeat_live (text token) (text id) sequence peer
          (find_session (expire_if_needed dev s w))

  unfoldable pub displayed : EspErr → ℕ → Statics → W → MetadataResult × Statics × W
  displayed EspErr.ok revision s w = (
    MetadataResult.ok,
    record s { session = record s.session { last_metadata_revision = revision } },
    w,
  )
  displayed e revision s w = (MetadataResult.display_unavailable, s, w)

-- The arguments of `michi_session_set_now_playing`.
pub record NowPlaying : Type 0 where
  pub session_token : Option (List ℕ)
  pub controller_id : Option (List ℕ)
  pub session_id : Option (List ℕ)
  pub metadata_revision : ℕ
  pub source : Option (List ℕ)
  pub title : Option (List ℕ)
  pub artist : Option (List ℕ)

unfoldable pub lacks_text : NowPlaying → Bool
lacks_text n =
    is_null n.controller_id
    || (is_null n.session_id || (is_null n.source || (is_null n.title || is_null n.artist)))

module _ {W : Type 0} (dev : Devices W) (n : NowPlaying) where
  unfoldable pub now_playing_live : Bool × Statics × W → MetadataResult × Statics × W
  now_playing_live (true, s, w) = (MetadataResult.no_session, s, w)
  now_playing_live (false, s, w) =
      let (err, w1) = dev.display_update (text n.source) (text n.title) (text n.artist) w in
      if not (str_eq (text n.session_id) s.session.info.session_id)
      then (MetadataResult.session_mismatch, s, w)
      else if not (token_matches (text n.session_token) s.session.session_token)
      then (MetadataResult.token_mismatch, s, w)
      else if not (str_eq (text n.controller_id) s.session.info.owner_controller_id)
      then (MetadataResult.owner_mismatch, s, w)
      else if n.metadata_revision == 0 || leb n.metadata_revision s.session.last_metadata_revision
      then (MetadataResult.stale, s, w)
      else displayed dev err n.metadata_revision s w1

  unfoldable pub set_now_playing : Statics → W → MetadataResult × Statics × W
  set_now_playing s w =
      if not s.initialized
      then (MetadataResult.no_session, s, w)
      else if not (token_valid n.session_token) || lacks_text n
      then (MetadataResult.token_mismatch, s, w)
      else now_playing_live (find_session dev (expire_if_needed dev s w))
