-- ===== src/Tests/Streams.antt =====
-- Runs of the datagram guard, the loss count and the buffer policy, and of the state machine.
use michi_music_stream.Prelude.{◌+◌, ◌%◌, true, false, none, some, List, [], ◌∷◌, ◌≡◌, arith}
use michi_music_stream.Rtp.Guard.{Packet, GuardSession, parse, header, parse-header}
use michi_music_stream.Rtp.Loss.{lost_total, sum, lost_total-sum}
use michi_music_stream.StateMachine.{idle}
use michi_music_stream.StateMachine.Event.{session_started}
use michi_music_stream.StateMachine.Bus.{Fsm, Action, posts, requests, dispatches, run}
use michi_music_stream.StateMachine.Authority.{IsReachable, run-IsReachable}

parse-header_example :
    parse (header 97 65535 480 11 (1 ∷ 2 ∷ []))
    ≡ some (record {
      pt = 97 % 128;
      seq = 65535;
      timestamp = 480;
      ssrc = 11;
      payload = 1 ∷ 2 ∷ [];
      payload_len = 2;
    })
parse-header_example =
    parse-header 97 65535 480 11 (1 ∷ 2 ∷ []) (omega arith) (omega arith) (omega arith)
      (omega arith)

abbrev datagram : Packet
datagram = record { pt = 97; seq = 3; timestamp = 480; ssrc = 11; payload = []; payload_len = 1920 }

abbrev peer : GuardSession
peer = record { pt = 97; ssrc = 11; source_be32 = 3232235796 }

lost_total-sum_example : lost_total 65534 (1 ∷ 4 ∷ 1 ∷ []) + 3 ≡ sum (1 ∷ 4 ∷ 1 ∷ [])
lost_total-sum_example =
    lost_total-sum 65534 (1 ∷ 4 ∷ 1 ∷ []) (omega arith)
      ((omega arith, omega arith), ((omega arith, omega arith), ((omega arith, omega arith), tt)))

-- A machine in IDLE with one observer.
abbrev machine : Fsm
machine = record {
  queue = [];
  current = idle;
  initialized = true;
  drops = 0;
  last_error = record {
    recorded = false;
    from_request = false;
    event = 0;
    payload = 0;
    target = none;
  };
  observers = record { filter = 0; fn = 1 } ∷ [];
}

abbrev opening : List Action
opening = posts session_started 0 ∷ dispatches ∷ requests 13 0 ∷ dispatches ∷ []

run-IsReachable_example : IsReachable idle (run 4 machine opening).current
run-IsReachable_example = run-IsReachable 4 machine opening
