-- ===== src/Session/Starting.antt =====
-- What a start of a session in michi_session.c promises.
use michi_music_stream.Prelude.{
  ℕ, true, false, Option, none, some, List, if◌then◌else◌, ◌==◌, ◌≡◌, ◌⊎◌, EspErr, is_ok,
}
use michi_music_stream.StateMachine.{updating, state_code}
use michi_music_stream.Session.{Statics, StartParams, blank, Devices}
use michi_music_stream.Session.Params.{IsCanonical}
use michi_music_stream.Session.Start.{new_session, StartReply}

-- The session that a start leaves: active, with the caller's terms, its token the answer.
pub record IsStarted (p : StartParams) (token : Option (List ℕ)) (s : Statics) : Type 0 where
  pub is_active : s.active ≡ true
  pub answer : token ≡ some s.session.session_token
  pub terms :
      s.session
      ≡ new_session p s.session.info.stream_port s.session.info.volume s.session.session_token
          s.session.info.session_id s.session.lease_deadline_us

-- No session was added: the one there was, or none and a wiped record.
abbrev pub AddsNone : Statics → Statics → Type 0
AddsNone s s' =
    ((s'.session ≡ s.session) × (s'.active ≡ s.active))
    ⊎ ((s'.session ≡ blank) × (s'.active ≡ false))

module _ {W : Type 0} (dev : Devices W) (p : StartParams) where
  abbrev pub StartOutcome : Statics → StartReply × Statics × W → Type 0
  StartOutcome s r =
      ((is_ok r.0.0 ≡ true) × IsStarted p r.0.1 r.1)
      ⊎ ((is_ok r.0.0 ≡ false) × (r.0.1 ≡ none) × AddsNone s r.1)

  failure_code : EspErr → EspErr
  failure_code err = if is_ok err then EspErr.invalid_state else err

  -- The conditions of a start, as the devices answer them when it is called.
  pub record IsPermitted (s : Statics) (w : W) : Type 0 where
    pub initialized : s.initialized ≡ true
    pub canonical : IsCanonical p
    pub playback : dev.playback_allowed w ≡ true
    pub no_update : dev.ota_busy w ≡ false
    pub not_updating : (state_code (dev.state_get w) == state_code updating) ≡ false

  abbrev pub Verdict : Statics → W → StartReply × Statics × W → Type 0
  Verdict s w r =
      ((is_ok r.0.0 ≡ true) × IsPermitted s w × IsStarted p r.0.1 r.1)
      ⊎ ((is_ok r.0.0 ≡ false) × (r.0.1 ≡ none) × AddsNone s r.1)
