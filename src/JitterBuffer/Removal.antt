-- ===== src/JitterBuffer/Removal.antt =====
-- michi_jb_init, michi_jb_flush, michi_jb_release and michi_jb_discard_stale as operations on the
-- packets held.
use michi_music_stream.Prelude.{
  ℕ, suc, ◌+◌, ◌-◌, ◌≤◌, ◌<◌, ◌≡◌, refl, sym, ap, subst, true, false, Option, none, some, List, map,
  arith, ◌==◌, if◌then◌else◌, length, length-take, set, get_elem?, ◌⊎◌, inl, inr, Bool-cases, ◌∙◌,
  EspErr,
}
use michi_music_stream.Rtp.Distance.{is_behind}
use michi_music_stream.JitterBuffer.{
  refuses_init, Entry, empty_entry, Jb, slots, with_slots, flush, init, or_static, is_null,
  entries_or_static, slots_of,
}
use michi_music_stream.JitterBuffer.Insert.{
  release, release_at, release_entry, discard, discard_stale,
}
use michi_music_stream.JitterBuffer.Array.{with_slots-SameShape, slots-with_slots}
use michi_music_stream.JitterBuffer.Slots.{
  lookup, used_count, Distinct, discard-Discarded, map-Cleared,
}
use michi_music_stream.JitterBuffer.Valid.{IsValid, packet, PoolFits, Removed, free_slot-Removed}

-- Discarding removes exactly the packets behind the playhead, keeps the others, returns how many it
-- removed, and keeps the buffer valid.
pub discard_stale_lem :
    (jb : Jb) (playhead : ℕ)
    → IsValid jb
    → let (removed, jb') = discard_stale jb playhead in
      IsValid jb'
      × ((s : ℕ) → packet jb' s ≡ (if is_behind s playhead then none else packet jb s))
      × (removed + jb'.count ≡ jb.count)
unfolding discard_stale slots
discard_stale_lem jb playhead v =
    let d = discard-Discarded (slots jb) playhead in
    let es = (discard (slots jb) playhead).0 in
    let shape = with_slots-SameShape jb es in
    let back = slots-with_slots jb es d.same_length in
    (
      record {
        sized = ap length back ∙ d.same_length ∙ v.sized ∙ sym shape.capacity;
        nonempty = rw shape.capacity v.nonempty;
        counted = omega (arith, v.counted, d.counted, ap used_count back);
        distinct = subst Distinct (sym back) (d.distinct v.distinct);
        pool_fits = rw (shape.pool, shape.capacity, shape.rx_buf_bytes) v.pool_fits;
      },
      λ s. ap (λ l. lookup l s) back ∙ d.held s,
      omega (arith, v.counted, d.counted),
    )

release_at_used :
    (jb : Jb) (i : ℕ) (e : Entry)
    → e.used ≡ true
    → release_at jb i (some e)
      ≡ record (with_slots jb (set (slots jb) i (release_entry e))) { count = jb.count - 1 }
unfolding release_at
release_at_used jb i e u = rw u

-- Releasing a used slot removes its packet and nothing else; the count falls by one, and the buffer
-- stays valid.
pub release_lem :
    (jb : Jb) (i : ℕ) (e : Entry)
    → IsValid jb
    → get_elem? (slots jb) i ≡ some e
    → e.used ≡ true
    → let jb' = release jb i in
      IsValid jb'
      × ((s : ℕ) → packet jb' s ≡ (if e.seq == s then none else packet jb s))
      × (suc jb'.count ≡ jb.count)
unfolding release
release_lem jb i e v at u =
    let same = ap (release_at jb i) at ∙ release_at_used jb i e u in
    let m = subst (Removed jb e.seq) (sym same) (free_slot-Removed jb i e v at u) in
    (m.valid, m.held, m.count)

-- A buffer that `michi_jb_flush` leaves: valid, and without a packet.
pub record IsEmpty (jb : Jb) : Type 0 where
  pub valid : IsValid jb
  pub no_packet : (s : ℕ) → packet jb s ≡ none
  pub count : jb.count ≡ 0

pub flush-IsEmpty :
    (jb : Jb)
    → is_null jb.entries ≡ false
    → length (slots jb) ≡ jb.capacity
    → 0 < jb.capacity
    → PoolFits jb.pool jb.capacity jb.rx_buf_bytes
    → IsEmpty (flush jb)
unfolding flush or_static slots
flush-IsEmpty jb there sized nonempty fits =
    let c = map-Cleared (slots jb) in
    let es = map (λ _. empty_entry) (slots jb) in
    let shape = with_slots-SameShape jb es in
    let back = slots-with_slots jb es c.same_length in
    rw there (record {
      valid = record {
        sized = ap length back ∙ c.same_length ∙ sized ∙ sym shape.capacity;
        nonempty = rw shape.capacity nonempty;
        counted = sym (ap used_count back ∙ c.no_packet);
        distinct = subst Distinct (sym back) c.distinct;
        pool_fits = rw (shape.pool, shape.capacity, shape.rx_buf_bytes) fits;
      };
      no_packet = λ s. ap (λ l. lookup l s) back ∙ c.held s;
      count = refl;
    })

-- The array that `michi_jb_init` works on.
abbrev pub array_for : Option (List Entry) → Jb → List Entry
array_for none jb = jb.entries_static
array_for (some es) jb = es

slots-init :
    (jb : Jb) (entries : Option (List Entry)) (capacity : ℕ)
    → capacity ≤ length (array_for entries jb)
    → (length (slots_of (entries_or_static entries) jb.entries_static capacity) ≡ capacity)
      × (is_null (entries_or_static entries) ≡ false)
unfolding slots_of entries_or_static is_null
slots-init jb none capacity h = (omega (arith, length-take capacity jb.entries_static), refl)
slots-init jb (some es) capacity h = (omega (arith, length-take capacity es), refl)

-- `michi_jb_init` accepts a capacity of at least one slot, at most 32 where it is given no array,
-- and a pool only with a slot size. What it accepts becomes an empty valid buffer of that capacity,
-- given that the array has `capacity` slots and the pool room for them; else it changes nothing.
pub init_lem :
    (jb : Jb) (entries : Option (List Entry)) (pool : Option (List ℕ)) (capacity rx : ℕ)
    → capacity ≤ length (array_for entries jb)
    → PoolFits pool capacity rx
    → let (err, jb') = init jb entries pool capacity rx in
      ((refuses_init entries pool capacity rx ≡ true) × (err ≡ EspErr.invalid_arg) × (jb' ≡ jb))
      ⊎ (refuses_init entries pool capacity rx ≡ false) × (err ≡ EspErr.ok) × IsEmpty jb'
unfolding init refuses_init slots
init_lem jb entries pool capacity rx room fits =
    elim (Bool-cases (refuses_init entries pool capacity rx)) [
      | inl r ↦ rw r (inl (refl, refl, refl))
      | inr r ↦
          (let (sized, there) = slots-init jb entries capacity room in
            rw r (inr (refl, refl, flush-IsEmpty _ there sized (ground arith) fits)))
    ]
