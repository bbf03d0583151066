-- ===== src/Tests/Session.antt =====
-- Runs of the session layer on a model bench of devices.
use michi_music_stream.Prelude.{
  ℕ, Bool, true, false, none, some, List, [], ◌∷◌, refl, arith, EspErr, codes, if◌then◌else◌,
  replicate, inr, str_eq,
}
use michi_music_stream.StateMachine.{idle}
use michi_music_stream.Session.{Statics, StartParams, Devices, blank, playing}
use michi_music_stream.Session.Text.{token_valid, token_matches, bytes_match, all_chars}
use michi_music_stream.Session.Lease.{expire_if_needed}
use michi_music_stream.Session.Calls.{stop, patch}
use michi_music_stream.Session.Queries.{heartbeat, is_replay, wrong_peer}
use michi_music_stream.Session.Closing.{ExpiryOutcome, expire_if_needed_lem}
use michi_music_stream.Session.Access.{IsDenied, stop-patch-IsDenied}
use michi_music_stream.Session.Expired.{RenewsTo, IsStuck, heartbeat-accepts_expired}
use michi_music_stream.Session.Trace.{starts, rounds, stops, run_calls}
use michi_music_stream.Session.Wiped.{IsWiped}
use michi_music_stream.Session.Histories.{run_calls-IsWiped}

-- A bench: a clock, an engine that runs or not, and one that may refuse to stop.
record Bench : Type 0 where
  clock : ℕ
  engine : Bool
  stuck : Bool

abbrev bench : Devices Bench
bench = record {
  audio_start = λ port ssrc ip ms w. (EspErr.ok, record w { engine = true });
  audio_stop =
      λ w. if w.stuck then (EspErr.timeout, w) else (EspErr.ok, record w { engine = false });
  audio_active = λ w. w.engine;
  audio_port = λ w. some 50000;
  audio_set_paused = λ b w. (EspErr.ok, w);
  audio_metrics = λ w. none;
  timer_start = λ us w. (EspErr.ok, w);
  timer_restart = λ us w. (EspErr.ok, w);
  timer_stop = λ w. w;
  time = λ w. w.clock;
  playback_allowed = λ w. true;
  ota_busy = λ w. false;
  state_get = λ w. idle;
  state_post = λ id w. (EspErr.ok, w);
  volume_set = λ v w. w;
  volume_get = λ w. 40;
  display_clear = λ w. (EspErr.ok, w);
  display_update = λ a b c w. (EspErr.ok, w);
  random = λ w. (5, w);
  fill_random = λ n w. (replicate n 7, w);
}

abbrev at_rest : Bench
at_rest = record { clock = 1000; engine = false; stuck = false }

abbrev streaming : Bench
streaming = record { clock = 1000; engine = true; stuck = false }

-- Past the deadline of `live`, with an engine that does not stop.
abbrev wedged : Bench
wedged = record { clock = 40000000; engine = true; stuck = true }

abbrev fresh : Statics
fresh = record {
  session = blank;
  active = false;
  startup_cleanup_pending = false;
  lease_expirations = 0;
  lease_generation = 0;
  watchdog_queue = [];
  initialized = true;
}

abbrev request : StartParams
request = record {
  owner_controller_id = codes "kitchen-1";
  codec = codes "pcm_s16le";
  sample_rate = 48000;
  bit_depth = 16;
  channels = 2;
  packet_ms = 10;
  buffer_ms = 120;
  payload_type = 97;
  ssrc = 11;
  volume = 40;
  source_ip = codes "192.168.1.20";
}

abbrev token : List ℕ
token = codes "AAECAwQFBgcICQoLDA0ODxAREhMUFRYXGBkaGxwdHh8"

abbrev other_token : List ℕ
other_token = codes "BBECAwQFBgcICQoLDA0ODxAREhMUFRYXGBkaGxwdHh8"

abbrev live : Statics
live = record fresh {
  active = true;
  session = record blank {
    session_token = token;
    last_heartbeat_seq = 4;
    heartbeat_seq_valid = true;
    lease_deadline_us = 30000000;
    info = record blank.info {
      session_id = codes "s1";
      source_addr = codes "192.168.1.20";
      state = playing;
    };
  };
}

run_calls-IsWiped_example : IsWiped (
    run_calls bench
      ((starts request 44, at_rest) ∷ (rounds, streaming) ∷ (stops (some token), streaming) ∷ [])
      fresh)
run_calls-IsWiped_example =
    run_calls-IsWiped bench
      ((starts request 44, at_rest) ∷ (rounds, streaming) ∷ (stops (some token), streaming) ∷ [])
      fresh (inr refl)

expire_if_needed_lem_example : ExpiryOutcome bench live wedged (expire_if_needed bench live wedged)
expire_if_needed_lem_example = expire_if_needed_lem bench live wedged refl

stop-patch-IsDenied_example :
    IsDenied bench live streaming (stop bench (some other_token) live streaming)
    × IsDenied bench live streaming (patch bench (some other_token) (some 5) none live streaming)
unfolding token_matches bytes_match
stop-patch-IsDenied_example =
    stop-patch-IsDenied bench (some other_token) (some 5) none live streaming refl

wedged-IsStuck : IsStuck bench wedged
wedged-IsStuck = record { stop_fails = refl; runs_on = refl; restarts = refl }

heartbeat-accepts_expired_example :
    RenewsTo bench 9
      (heartbeat bench (some token) (some (codes "s1")) 9 (some (codes "192.168.1.20")) live wedged)
unfolding token_valid all_chars token_matches bytes_match wrong_peer is_replay str_eq
heartbeat-accepts_expired_example =
    heartbeat-accepts_expired bench token 9 live wedged refl refl (omega arith) wedged-IsStuck refl
      refl refl refl
