-- ===== src/Tests/Engine.antt =====
-- Runs of the audio engine: the clock, the receive path, the silence and a whole session.
use michi_music_stream.Prelude.{
  ℕ, zero, suc, ◌+◌, ◌*◌, ◌%◌, ◌^◌, ◌<◌, ◌≡◌, refl, true, false, some, List, [], ◌∷◌, ◌++◌, arith,
  All, replicate, length-replicate, ltb,
}
use michi_music_stream.Prelude.Int.{pos}
use michi_music_stream.Rtp.Guard.{source_mismatch, parse, header}
use michi_music_stream.JitterBuffer.{external, Jb, empty_entry, slots, flush, is_null}
use michi_music_stream.JitterBuffer.Removal.{IsEmpty, flush-IsEmpty}
use michi_music_stream.Engine.{Metrics, Stream, Engine}
use michi_music_stream.Engine.Clock.{clock_reset, clock_delta}
use michi_music_stream.Engine.Clock.Tracking.{feed_all, feed_all-exact}
use michi_music_stream.Engine.Policy.Window.{InWindow}
use michi_music_stream.Engine.Recv.{Received, failed, datagram, Input}
use michi_music_stream.Engine.Recv.Window.{GivesBytes}
use michi_music_stream.Engine.Recv.Account.{
  class_counter, class_sum, arrived, received_class, parsed_class, packet_class, datagram_count,
  recv_all, recv_all-datagrams,
}
use michi_music_stream.Engine.Playback.{Player, write_silence, silence_rounds, sample_bytes}
use michi_music_stream.Engine.Playback.Gap.{DrainIsBounded}
use michi_music_stream.Engine.Playback.Silence.{write_silence_complete}
use michi_music_stream.Engine.Task.{World, Limits, session_task}
use michi_music_stream.Engine.Task.Session.{session_task-InWindow_bounded}

-- Across the wrap of the timestamps, with the second and the third in the wrong order.
feed_all-exact_example :
    let c = feed_all clock_reset (4294967000 ∷ 4294967960 ∷ 4294967480 ∷ []) in
    (c.extended ≡ 4294967480)
    × (c.highest_extended ≡ 4294967960)
    × ((4294967000 + clock_delta c) % 2 ^ 64 ≡ 4294967480)
feed_all-exact_example =
    feed_all-exact 4294967000 (4294967960 ∷ 4294967480 ∷ []) (omega arith)
      ((omega arith, omega arith), omega arith, ((omega arith, omega arith), omega arith, tt))

-- Three free slots, and room for one payload in each.
abbrev free_slots : Jb
free_slots = record {
  entries_static = [];
  entries = external (empty_entry ∷ empty_entry ∷ empty_entry ∷ []);
  pool = some (replicate 5760 0);
  count = 0;
  capacity = 3;
  rx_buf_bytes = 1920;
}

abbrev stream : Stream
stream = record {
  guard = record { pt = 97; ssrc = 11; source_be32 = 3232235796 };
  stream_seeded = false;
  playhead = 0;
  last_seq = 0;
  last_played_ts = 0;
  samples_per_packet = 480;
  base_ts = 0;
  base_time_us = 0;
  jitter_us = 0;
  in_underrun = false;
  recv_error_streak = 0;
  fatal_recv_error = false;
  rtp_clock = record { last_raw = 0; extended = 0; highest_extended = 0; base = 0; seeded = false };
  rtp_jitter = record { seeded = false; prev_arrival_us = 0; prev_rtp_ts = 0; jitter_us = 0 };
  clock_offset_us = pos 0;
  buffer_ms = 30;
  jb = flush free_slots;
}

abbrev no_metrics : Metrics
no_metrics = record {
  received = 0;
  lost = 0;
  provisionally_missing = 0;
  late = 0;
  duplicate = 0;
  reordered = 0;
  underruns = 0;
  overruns = 0;
  drops_malformed = 0;
  drops_pt_other = 0;
  drops_ssrc_filtered = 0;
  drops_source_ip = 0;
  drops_payload_geometry = 0;
  jitter_us = 0;
  rtp_interarrival_jitter_us = 0;
  clock_offset_us = pos 0;
  buffer_ms = 0;
  packets_in_buffer = 0;
  last_seq = 0;
  last_timestamp = 0;
  pcm_packets_submitted = 0;
  pcm_bytes_submitted = 0;
  last_pcm_submit_us = 0;
}

abbrev started : Engine
started = record { stream = stream; metrics = no_metrics; run = true }

-- A packet of the session with a whole payload.
abbrev packet_bytes : List ℕ
packet_bytes = header 97 65535 480 11 (replicate 1920 7)

abbrev arriving : Received → Input
arriving r = record { received = r; paused = false; seed_us = 1000; now_us = 1010 }

-- The packet from its sender, then from another, then a runt, and an error of the socket.
abbrev inputs : List Input
inputs =
    arriving (datagram packet_bytes 3232235796)
    ∷ arriving (datagram packet_bytes 3232235797)
    ∷ arriving (datagram (1 ∷ []) 3232235796)
    ∷ arriving (failed false)
    ∷ []

few :
    class_counter source_mismatch no_metrics + arrived source_mismatch inputs stream.guard + 1
    < 2 ^ 32
unfolding class_counter arrived received_class parsed_class packet_class parse
few = omega arith

-- Of these, the second is counted for its sender.
recv_all-datagrams_example :
    (class_counter source_mismatch (recv_all 256 inputs started).metrics
      ≡ class_counter source_mismatch no_metrics + arrived source_mismatch inputs stream.guard)
    × (class_sum (λ c. arrived c inputs stream.guard) ≡ datagram_count inputs)
recv_all-datagrams_example = recv_all-datagrams source_mismatch 256 inputs started few

-- A pipeline that keeps what it is given.
abbrev recorder : Player (List ℕ)
recorder = record {
  output_write = λ bytes w. (true, w ++ bytes);
  session_run = λ w. (true, w);
  timer_us = λ w. (0, w);
}

write_silence_complete_example :
    let (ok, w) = write_silence recorder stream 1000 (9 ∷ []) in
    (ok ≡ true)
    × (w ≡ (9 ∷ []) ++ replicate (1000 * sample_bytes) 0)
    × (silence_rounds recorder 1500 480 1000 (9 ∷ []) ≡ (ok, w))
write_silence_complete_example =
    write_silence_complete recorder (λ w. w) stream 1000 1500 (9 ∷ [])
      (record {
        takes = λ bytes w. refl;
        keeps = λ bytes w. refl;
        goes_on = λ w. refl;
        same = λ w. refl;
      })
      (omega arith) (omega arith)

-- A world that counts its own calls: it delivers the packet each time, refuses no write, and stops
-- the session after a hundred calls.
abbrev world : World ℕ
world = record {
  player = record {
    output_write = λ bytes w. (true, w + 1);
    session_run = λ w. (ltb w 100, w + 1);
    timer_us = λ w. (w, w + 1);
  };
  receive = λ w. (arriving (datagram packet_bytes 3232235796), w + 1);
  paused = λ w. (false, w + 1);
  quiesced = λ w. (false, w + 1);
  fill_rounds = λ w. ([], w + 1);
  now_ms = λ w. (w, w + 1);
  post_error = λ w. w + 1;
}

All-replicate : (P : ℕ → Type 0) (n x : ℕ) → P x → All P (replicate n x)
All-replicate P zero x h = tt
All-replicate P (suc n) x h = (h, All-replicate P n x h)

packet-GivesBytes : GivesBytes (datagram packet_bytes 3232235796)
packet-GivesBytes =
    let rest = All-replicate (λ b. b < 256) 1920 7 (omega arith) in
    let o : 0 < 256 = omega arith in
    (
      omega arith,
      (
        omega arith,
        (
          omega arith,
          (omega arith, (o, (o, (omega arith, (omega arith, (o, (o, (o, (omega arith, rest))))))))),
        ),
      ),
    )

abbrev limits : Limits
limits = record { max_packets = 256; prefill_ms = 30 }

session_task-InWindow_bounded_example :
    let s = (session_task world limits 20 started 0).0.engine.stream in
    InWindow 256 s × DrainIsBounded 256 s
unfolding is_null slots
session_task-InWindow_bounded_example =
    session_task-InWindow_bounded world limits 20 started 0 (omega arith)
      (record { on_receive = λ w. packet-GivesBytes; on_fill = λ w. tt })
      (record { empty = no_packet; playhead_in = omega arith; per_packet = omega arith })
  where
    no_packet : IsEmpty (flush free_slots)
    no_packet =
        flush-IsEmpty free_slots refl refl (omega arith)
          (rw (length-replicate {A = ℕ} 5760 0) (omega arith))
