-- ===== src/JitterBuffer/Insert.antt =====
-- The operations of michi_jb.c that add and remove packets: michi_jb_insert_packet,
-- michi_jb_release, michi_jb_discard_stale. Each returns the new buffer.
use michi_music_stream.Prelude.{
  ℕ, zero, suc, ◌+◌, ◌-◌, ◌*◌, Bool, true, false, ◌&&◌, ◌||◌, not, Option, none, some, List, [],
  ◌∷◌, ltb, leb, ◌==◌, if◌then◌else◌, take, set, get_elem?,
}
use michi_music_stream.Prelude.Int.{ℤ, negsuc, ltb_ℤ}
use michi_music_stream.Rtp.Distance.{distance, is_behind}
use michi_music_stream.JitterBuffer.{
  Jb, Entry, Slot, InsertResult, ok, duplicate, overrun_dropped, overrun_evicted, slots, with_slots,
  or_static, find, is_some,
}

-- `memcpy(dst + off, src, length src)`; a byte past the end of `dst` is not written
-- (Bounds: the firmware never asks for one).
unfoldable pub blit : List ℕ → ℕ → List ℕ → List ℕ
blit [] off src = []
blit (d ∷ ds) zero [] = d ∷ ds
blit (d ∷ ds) zero (s ∷ src) = s ∷ blit ds zero src
blit (d ∷ ds) (suc off) src = d ∷ blit ds off src

-- A buffer with a pool refuses a payload that no slot can hold.
unfoldable pub rejects_payload : Option (List ℕ) → ℕ → Option (List ℕ) → ℕ → Bool
rejects_payload none rx payload len = false
rejects_payload (some pool) rx payload len =
    rx == 0 || (ltb rx len || (not (len == 0) && not (is_some payload)))

-- The eviction scan: the first stale slot ends it, otherwise the farthest future slot is chosen.
unfoldable pub pick_victim : List Entry → ℕ → ℕ → Option Slot → ℤ → Option Slot
pick_victim [] i playhead evict farthest = evict
pick_victim (e ∷ es) i playhead evict farthest =
    let far = e.used && ltb_ℤ farthest (distance e.seq playhead) in
    let rest =
      pick_victim es (suc i) playhead
        (if far then some (record { index = i; entry = e }) else evict)
        (if far then distance e.seq playhead else farthest) in
    if e.used && is_behind e.seq playhead then some (record { index = i; entry = e }) else rest

-- The first free slot takes the packet: its index, and the array written.
unfoldable pub fill : List Entry → Entry → Option (ℕ × List Entry)
fill [] new = none
fill (e ∷ es) new =
    let rest = fill es new in
    if e.used
    then elim rest [ none ↦ none | some (i, es') ↦ some (suc i, e ∷ es') ]
    else some (0, new ∷ es)

unfoldable pub copy_payload : Option (List ℕ) → ℕ → ℕ → Option (List ℕ) → ℕ → Option (List ℕ)
copy_payload none rx i payload len = none
copy_payload (some pool) rx i none len = some pool
copy_payload (some pool) rx i (some bytes) len =
    if len == 0 then some pool else some (blit pool (i * rx) (take len bytes))

unfoldable pub place :
    Jb → Option (List ℕ) → ℕ → Option (ℕ × List Entry) → InsertResult → InsertResult × Jb
unfolding copy_payload
place jb payload len none res = (overrun_dropped, jb)
place jb payload len (some (i, es)) res = (
  res,
  record (with_slots jb es) {
    pool = copy_payload jb.pool jb.rx_buf_bytes i payload len;
    count = jb.count + 1;
  },
)

-- The end of `michi_jb_insert_packet`, after any eviction.
unfoldable pub store : Jb → Entry → Option (List ℕ) → InsertResult → InsertResult × Jb
unfolding place
store jb new payload res = place jb payload new.len (fill (slots jb) new) res

unfoldable pub release_entry : Entry → Entry
release_entry e = record e { used = false }

-- `evict->used = false; jb->count--` with `jb->count >= jb->capacity > 0`.
unfoldable pub evict_slot : Jb → Slot → Jb
unfolding release_entry
evict_slot jb s = record (with_slots jb (set (slots jb) s.index (release_entry s.entry))) {
  count = jb.count - 1;
}

-- What the full buffer does with the slot that the scan chose. The option is `*out_evicted_seq`.
unfoldable pub replace :
    Jb → ℕ → Entry → Option (List ℕ) → Option Slot → InsertResult × Option ℕ × Jb
replace jb playhead new payload none = (overrun_dropped, none, jb)
replace jb playhead new payload (some s) =
    if not (is_behind s.entry.seq playhead)
      && not (ltb_ℤ (distance new.seq playhead) (distance s.entry.seq playhead))
    then (overrun_dropped, none, jb)
    else (let (res, jb') = store (evict_slot jb s) new payload overrun_evicted in
        (res, some s.entry.seq, jb'))

unfoldable pub insert_new : Jb → ℕ → Entry → Option (List ℕ) → InsertResult × Option ℕ × Jb
insert_new jb playhead new payload =
    if leb jb.capacity jb.count
    then replace jb playhead new payload (pick_victim (slots jb) 0 playhead none (negsuc 0))
    else (let (res, jb') = store jb new payload ok in (res, none, jb'))

unfoldable pub insert_packet : Jb → ℕ → ℕ → ℕ → Option (List ℕ) → ℕ → InsertResult × Option ℕ × Jb
unfolding rejects_payload insert_new is_some
insert_packet jb0 playhead seq timestamp payload len =
    let jb = or_static jb0 in
    let new : Entry = record { seq = seq; timestamp = timestamp; len = len; used = true } in
    if rejects_payload jb.pool jb.rx_buf_bytes payload len || is_behind seq playhead
    then (overrun_dropped, none, jb)
    else if is_some (find jb seq)
    then (duplicate, none, jb)
    else insert_new jb playhead new payload

unfoldable pub release_at : Jb → ℕ → Option Entry → Jb
unfolding release_entry
release_at jb i none = jb
release_at jb i (some e) =
    if e.used
    then record (with_slots jb (set (slots jb) i (release_entry e))) { count = jb.count - 1 }
    else jb

-- `michi_jb_release` of the entry at index `i`; NULL is an index out of range. The count stays at 0
-- there, as `-` on ℕ does.
unfoldable pub release : Jb → ℕ → Jb
unfolding release_at
release jb i = release_at jb i (get_elem? (slots jb) i)

unfoldable pub is_stale : Entry → ℕ → Bool
is_stale e playhead = e.used && is_behind e.seq playhead

-- The loop of `michi_jb_discard_stale` over the slots left: the slots written, and how many.
unfoldable pub discard : List Entry → ℕ → List Entry × ℕ
unfolding is_stale release_entry
discard [] playhead = ([], 0)
discard (e ∷ es) playhead =
    let (es', n) = discard es playhead in
    if is_stale e playhead then (release_entry e ∷ es', n + 1) else (e ∷ es', n)

-- Each release takes one off the count, which stays at 0 there.
unfoldable pub discard_stale : Jb → ℕ → ℕ × Jb
discard_stale jb playhead =
    let (es, n) = discard (slots jb) playhead in
    (n, record (with_slots jb es) { count = jb.count - n })
