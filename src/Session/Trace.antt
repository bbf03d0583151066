-- ===== src/Session/Trace.antt =====
-- The session layer over time: every entry point of michi_session.c, the watchdog's callback and the
-- session task, each against devices in any condition.
use michi_music_stream.Prelude.{ℕ, Bool, Option, List, [], ◌∷◌}
use michi_music_stream.Session.{Statics, StartParams, Devices}
use michi_music_stream.Session.Lease.{watchdog_fires, task_round}
use michi_music_stream.Session.Start.{start}
use michi_music_stream.Session.Calls.{stop, abort, patch}
use michi_music_stream.Session.Queries.{get_info, active, heartbeat, NowPlaying, set_now_playing}

pub data Call : Type 0 where
  starts : StartParams → ℕ → Call
  stops : Option (List ℕ) → Call
  aborts queries asks_active fires rounds : Call
  patches : Option (List ℕ) → Option ℕ → Option Bool → Call
  beats : Option (List ℕ) → Option (List ℕ) → ℕ → Option (List ℕ) → Call
  announces : NowPlaying → Call

module _ {W : Type 0} (dev : Devices W) where
  -- What a call leaves in the statics, the devices being in the condition w.
  unfoldable pub after_call : Call → Statics → W → Statics
  after_call (starts p n) s w = (start dev p n s w).1
  after_call (stops token) s w = (stop dev token s w).1
  after_call aborts s w = (abort dev s w).1
  after_call queries s w = (get_info dev s w).1
  after_call asks_active s w = (active dev s w).1
  after_call fires s w = (watchdog_fires dev s w).0
  after_call rounds s w = (task_round dev s w).0
  after_call (patches token volume pause) s w = (patch dev token volume pause s w).1
  after_call (beats token id sequence peer) s w = (heartbeat dev token id sequence peer s w).1
  after_call (announces n) s w = (set_now_playing dev n s w).1

  -- Calls under the session's mutex, in their order; between two of them the devices may change.
  unfoldable pub run_calls : List (Call × W) → Statics → Statics
  run_calls [] s = s
  run_calls ((c, w) ∷ cs) s = run_calls cs (after_call c s w)
