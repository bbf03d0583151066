-- ===== src/JitterBuffer.antt =====
-- The jitter buffer of firmware/components/michi_audio/michi_jb.c: its state and its operations.
-- `slots` is the array `entries[0..capacity)`; a pointer into it is a `Slot`, its index with what it
-- points at.
pub mod Insert
pub mod Slots
pub mod Array
pub mod Victim
pub mod Valid
pub mod Arrivals
pub mod Inserts
pub mod Removal
pub mod Ahead
pub mod Behind
pub mod Oldest
pub mod Payload
pub mod Holds
use michi_music_stream.Prelude.{
  ℕ, zero, suc, ◌+◌, ◌-◌, ◌≡◌, Bool, true, false, ◌&&◌, ◌||◌, not, Option, none, some, List, [],
  ◌∷◌, ◌++◌, map, EspErr, ltb, leb, ◌==◌, if◌then◌else◌, take, drop,
}
use michi_music_stream.Prelude.Int.{ℤ, pos, ltb_ℤ}
use michi_music_stream.Rtp.Distance.{distance, is_behind}

-- `michi_jb_entry_t`.
pub record Entry : Type 0 where
  pub seq : ℕ
  pub timestamp : ℕ
  pub len : ℕ
  pub used : Bool

-- The pointer `entries`: NULL, the array inside the struct, or one that the caller owns.
pub data Entries : Type 0 where
  null internal : Entries
  external : List Entry → Entries

-- `michi_jb_t`. The pool is NULL in tests.
pub record Jb : Type 0 where
  pub entries_static : List Entry
  pub entries : Entries
  pub pool : Option (List ℕ)
  pub count : ℕ
  pub capacity : ℕ
  pub rx_buf_bytes : ℕ

-- `michi_jb_insert_result_t`.
pub data InsertResult : Type 0 where
  ok duplicate overrun_dropped overrun_evicted : InsertResult

pub record Slot : Type 0 where
  pub index : ℕ
  pub entry : Entry

-- MICHI_JB_TEST_MAX_PACKETS.
abbrev pub test_max_packets : ℕ
test_max_packets = 32

pub slots_of : Entries → List Entry → ℕ → List Entry
slots_of null static n = []
slots_of internal static n = take n static
slots_of (external es) static n = take n es

-- `entries[0..capacity)`.
unfoldable pub slots : Jb → List Entry
unfolding slots_of
slots jb = slots_of jb.entries jb.entries_static jb.capacity

write_slots : Entries → Jb → List Entry → Jb
write_slots null jb es = jb
write_slots internal jb es = record jb { entries_static = es ++ drop jb.capacity jb.entries_static }
write_slots (external old) jb es = record jb { entries = external (es ++ drop jb.capacity old) }

-- The array with its first `capacity` entries written anew.
unfoldable pub with_slots : Jb → List Entry → Jb
unfolding write_slots
with_slots jb es = write_slots jb.entries jb es

unfoldable pub is_null : Entries → Bool
is_null null = true
is_null _ = false

-- The fallback that `michi_jb_flush` and `michi_jb_insert_packet` begin with.
unfoldable pub or_static : Jb → Jb
unfolding is_null
or_static jb =
    if is_null jb.entries
    then record jb {
      entries = internal;
      capacity = test_max_packets;
      pool = none;
      rx_buf_bytes = 0;
    }
    else jb

abbrev pub empty_entry : Entry
empty_entry = record { seq = 0; timestamp = 0; len = 0; used = false }

unfoldable pub flush : Jb → Jb
flush jb0 =
    let jb = or_static jb0 in
    let cleared = with_slots jb (map (λ _. empty_entry) (slots jb)) in record cleared { count = 0 }

unfoldable pub is_some {ℓ} : {A : Type ℓ} → Option A → Bool
is_some none = false
is_some (some a) = true

entries_or_static : Option (List Entry) → Entries
entries_or_static none = internal
entries_or_static (some es) = external es

-- What `michi_jb_init` refuses; `jb == NULL` has no counterpart.
unfoldable pub refuses_init : Option (List Entry) → Option (List ℕ) → ℕ → ℕ → Bool
unfolding is_some
refuses_init entries pool capacity rx_buf_bytes =
    capacity == 0
    || (not (is_some entries) && ltb test_max_packets capacity)
    || (is_some pool && rx_buf_bytes == 0)

unfoldable pub init : Jb → Option (List Entry) → Option (List ℕ) → ℕ → ℕ → EspErr × Jb
unfolding refuses_init entries_or_static
init jb entries pool capacity rx_buf_bytes =
    if refuses_init entries pool capacity rx_buf_bytes then (EspErr.invalid_arg, jb) else (
      EspErr.ok,
      flush (record jb {
        entries = entries_or_static entries;
        pool = pool;
        capacity = capacity;
        rx_buf_bytes = rx_buf_bytes;
      }),
    )

-- The loop of `michi_jb_find` from index `i` on.
unfoldable pub find_from : List Entry → ℕ → ℕ → Option Slot
find_from [] i seq = none
find_from (e ∷ es) i seq =
    if e.used && e.seq == seq
    then some (record { index = i; entry = e })
    else find_from es (suc i) seq

-- With a NULL array `slots` is empty, and the answer NULL.
unfoldable pub find : Jb → ℕ → Option Slot
find jb seq = find_from (slots jb) 0 seq

-- The first loop of `michi_jb_oldest`: the nearest entry that is not behind the playhead.
unfoldable pub nearest_ahead : List Entry → ℕ → ℕ → Option Slot → ℤ → Option Slot
nearest_ahead [] i playhead best best_diff = best
nearest_ahead (e ∷ es) i playhead best best_diff =
    let diff = distance e.seq playhead in
    let better = e.used && (not (ltb_ℤ diff (pos 0)) && ltb_ℤ diff best_diff) in
    nearest_ahead es (suc i) playhead
      (if better then some (record { index = i; entry = e }) else best)
      (if better then diff else best_diff)

nearer : Entry → ℕ → Option Slot → Bool
nearer e playhead none = true
nearer e playhead (some best) = ltb_ℤ (distance best.entry.seq playhead) (distance e.seq playhead)

-- Its second loop: the entry with the greatest signed distance.
unfoldable pub latest_behind : List Entry → ℕ → ℕ → Option Slot → Option Slot
unfolding nearer
latest_behind [] i playhead best = best
latest_behind (e ∷ es) i playhead best =
    latest_behind es (suc i) playhead
      (if e.used && nearer e playhead best then some (record { index = i; entry = e }) else best)

or_else : Option Slot → Option Slot → Option Slot
or_else none b = b
or_else (some a) b = some a

-- `best_diff` starts at INT16_MAX.
unfoldable pub oldest : Jb → ℕ → Option Slot
unfolding or_else
oldest jb playhead =
    or_else (nearest_ahead (slots jb) 0 playhead none (pos 32767))
      (latest_behind (slots jb) 0 playhead none)
