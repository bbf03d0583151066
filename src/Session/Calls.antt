-- ===== src/Session/Calls.antt =====
-- The calls that end or change a session in michi_session.c: stop, abort and patch. A NULL string is
-- `none`.
use michi_music_stream.Prelude.{
  ℕ, Bool, true, false, ◌||◌, not, Option, none, some, List, [], ltb, eqb, if◌then◌else◌, EspErr,
}
use michi_music_stream.StateMachine.Event.{session_closed, session_paused, session_resumed}
use michi_music_stream.Session.{playing, SessionState, Statics, Devices}
use michi_music_stream.Session.Text.{token_valid, token_matches}
use michi_music_stream.Session.Lease.{post_event, teardown, expire_if_needed}

-- The bytes of a string that may be NULL.
abbrev pub text : Option (List ℕ) → List ℕ
text none = []
text (some t) = t

abbrev pub is_null : Option (List ℕ) → Bool
is_null none = true
is_null (some t) = false

unfoldable pub set_volume : ℕ → Statics → Statics
set_volume v s = record s {
  session = record s.session { info = record s.session.info { volume = v } };
}

unfoldable pub set_paused : Bool → Statics → Statics
set_paused b s = record s {
  session = record s.session {
    info = record s.session.info { paused = b; state = if b then SessionState.paused else playing };
  };
}

module _ {W : Type 0} (dev : Devices W) where
  -- The answer to a teardown that a caller asked for.
  unfoldable pub close_answer : EspErr × Statics × W → EspErr × Statics × W
  close_answer (EspErr.ok, s, w) = (EspErr.ok, s, post_event dev session_closed w)
  close_answer (e, s, w) = (e, s, w)

  unfoldable pub stop_live : List ℕ → Bool × Statics × W → EspErr × Statics × W
  stop_live token (expired, s, w) =
      if expired || not s.active
      then (EspErr.invalid_state, s, w)
      else if not (token_matches token s.session.session_token)
      then (EspErr.not_found, s, w)
      else close_answer (teardown dev false s w)

  unfoldable pub stop : Option (List ℕ) → Statics → W → EspErr × Statics × W
  stop token s w =
      if not s.initialized
      then (EspErr.invalid_state, s, w)
      else if not (token_valid token)
      then (EspErr.invalid_arg, s, w)
      else stop_live (text token) (expire_if_needed dev s w)

  unfoldable pub abort_live : Bool × Statics × W → EspErr × Statics × W
  abort_live (expired, s, w) =
      if expired || not s.active
      then (EspErr.invalid_state, s, w)
      else close_answer (teardown dev false s w)

  unfoldable pub abort : Statics → W → EspErr × Statics × W
  abort s w =
      if not s.initialized
      then (EspErr.invalid_state, s, w)
      else abort_live (expire_if_needed dev s w)

  unfoldable pub patch_volume : Option ℕ → Statics → W → Statics × W
  patch_volume none s w = (s, w)
  patch_volume (some v) s w = let w1 = dev.volume_set v w in (set_volume (dev.volume_get w1) s, w1)

  -- A change of the pause comes first, and its failure ends the call.
  unfoldable pub patch_paused : EspErr → Bool → Option ℕ → Statics → W → EspErr × Statics × W
  patch_paused EspErr.ok b volume s w =
      let (s1, w1) = patch_volume volume (set_paused b s) w in
      (EspErr.ok, s1, post_event dev (if b then session_paused else session_resumed) w1)
  patch_paused e b volume s w = (e, s, w)

  unfoldable pub patch_admitted : Option ℕ → Option Bool → Statics → W → EspErr × Statics × W
  patch_admitted volume none s w = let (s1, w1) = patch_volume volume s w in (EspErr.ok, s1, w1)
  patch_admitted volume (some b) s w =
      let (s1, w1) = patch_volume volume s w in
      let (err, w2) = dev.audio_set_paused b w in
      if eqb b s.session.info.paused then (EspErr.ok, s1, w1) else patch_paused err b volume s w2

  unfoldable pub patch_live :
      List ℕ → Option ℕ → Option Bool → Bool × Statics × W → EspErr × Statics × W
  patch_live token volume pause (expired, s, w) =
      if expired || not s.active
      then (EspErr.invalid_state, s, w)
      else if not (token_matches token s.session.session_token)
      then (EspErr.not_found, s, w)
      else patch_admitted volume pause s w

  -- The arguments that `michi_session_patch` refuses: `none` is a property that is not set.
  unfoldable pub patch_refuses : Option ℕ → Option Bool → Bool
  patch_refuses none none = true
  patch_refuses none (some b) = false
  patch_refuses (some v) pause = ltb 100 v

  unfoldable pub patch :
      Option (List ℕ) → Option ℕ → Option Bool → Statics → W → EspErr × Statics × W
  patch token volume pause s w =
      if not s.initialized
      then (EspErr.invalid_state, s, w)
      else if not (token_valid token) || patch_refuses volume pause
      then (EspErr.invalid_arg, s, w)
      else patch_live (text token) volume pause (expire_if_needed dev s w)
