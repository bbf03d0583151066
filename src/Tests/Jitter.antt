-- ===== src/Tests/Jitter.antt =====
-- Runs of the jitter buffer across the wrap of the sequence numbers.
use michi_music_stream.Prelude.{
  ℕ, ◌≡◌, refl, none, some, [], ◌∷◌, arith, if◌then◌else◌, ◌==◌, suc, ◌||◌,
}
use michi_music_stream.Rtp.Distance.{distance, is_behind}
use michi_music_stream.JitterBuffer.{
  external, Jb, InsertResult, empty_entry, find, find_from, oldest, nearest_ahead, latest_behind,
  slots, or_static,
}
use michi_music_stream.JitterBuffer.Insert.{
  insert_packet, release, rejects_payload, pick_victim, replace, store, evict_slot, fill, blit,
}
use michi_music_stream.JitterBuffer.Valid.{IsValid, packet}
use michi_music_stream.JitterBuffer.Inserts.{arrival, insert_packet-Outcome}
use michi_music_stream.JitterBuffer.Arrivals.{Outcome}
use michi_music_stream.JitterBuffer.Removal.{release_lem}
use michi_music_stream.JitterBuffer.Oldest.{Earliest, oldest-Earliest}

-- Three slots: 65535 and 1 are held, and the playhead stands at 65535.
abbrev wrapped : Jb
wrapped = record {
  entries_static = [];
  entries = external (arrival 65535 10 2 ∷ arrival 1 20 2 ∷ empty_entry ∷ []);
  pool = some (1 ∷ 2 ∷ 3 ∷ 4 ∷ 0 ∷ 0 ∷ []);
  count = 2;
  capacity = 3;
  rx_buf_bytes = 2;
}

-- The same buffer, full.
abbrev crowded : Jb
crowded = record wrapped {
  entries = external (arrival 65535 10 2 ∷ arrival 1 20 2 ∷ arrival 5 30 2 ∷ []);
  count = 3;
}

wrapped-IsValid : IsValid wrapped
unfolding slots
wrapped-IsValid = record {
  sized = refl;
  nonempty = omega arith;
  counted = refl;
  distinct = ((λ _. refl), ((λ _. refl), ((λ _. refl), tt)));
  pool_fits = omega arith;
}

crowded-IsValid : IsValid crowded
unfolding slots
crowded-IsValid = record {
  sized = refl;
  nonempty = omega arith;
  counted = refl;
  distinct = ((λ _. refl), ((λ _. refl), ((λ _. refl), tt)));
  pool_fits = omega arith;
}

insert_runs :
    ((insert_packet wrapped 65535 0 15 (some (7 ∷ 8 ∷ [])) 2).0 ≡ InsertResult.ok)
    × ((insert_packet wrapped 65535 0 15 (some (7 ∷ 8 ∷ [])) 2).2.pool
        ≡ some (1 ∷ 2 ∷ 3 ∷ 4 ∷ 7 ∷ 8 ∷ []))
    × ((insert_packet crowded 65535 3 25 (some (7 ∷ 8 ∷ [])) 2).1 ≡ some 5)
    × ((insert_packet crowded 65535 6 25 (some (7 ∷ 8 ∷ [])) 2).0 ≡ InsertResult.overrun_dropped)
    × ((insert_packet crowded 65535 65534 25 none 0).0 ≡ InsertResult.overrun_dropped)
unfolding insert_packet replace store evict_slot pick_victim fill blit find find_from slots distance
    or_static
insert_runs = (refl, refl, refl, refl, refl)

oldest_runs : oldest wrapped 0 ≡ some (record { index = 1; entry = arrival 1 20 2 })
unfolding oldest nearest_ahead latest_behind slots distance
oldest_runs = refl

insert_packet-Outcome_example :
    let r = insert_packet crowded 65535 3 25 (some (7 ∷ 8 ∷ [])) 2 in
    Outcome crowded 65535
      (arrival 3 25 2)
      (rejects_payload crowded.pool 2 (some (7 ∷ 8 ∷ [])) 2 || is_behind 3 65535)
      r.0
      r.1
      r.2
insert_packet-Outcome_example =
    insert_packet-Outcome crowded 65535 3 25 (some (7 ∷ 8 ∷ [])) 2 crowded-IsValid

release_lem_example :
    let jb' = release wrapped 1 in
    IsValid jb'
    × ((s : ℕ) → packet jb' s ≡ (if 1 == s then none else packet wrapped s))
    × (suc jb'.count ≡ 2)
unfolding slots
release_lem_example = release_lem wrapped 1 (arrival 1 20 2) wrapped-IsValid refl refl

oldest-Earliest_example : Earliest (slots wrapped) 0 (oldest wrapped 0)
oldest-Earliest_example = oldest-Earliest wrapped 0
