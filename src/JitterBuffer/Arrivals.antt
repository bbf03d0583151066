-- ===== src/JitterBuffer/Arrivals.antt =====
-- The new packet of michi_jb_insert_packet: what a full and a not full buffer do with it.
use michi_music_stream.Prelude.{
  ℕ, suc, ◌≤◌, ◌<◌, ◌≡◌, refl, sym, subst, Bool, true, false, Option, none, some, List, [], ◌∷◌,
  arith, ◌==◌, leb, if◌then◌else◌, length, get_elem?, ◌⊎◌, inl, inr, Bool-cases, ◌∙◌,
}
use michi_music_stream.Prelude.Int.{negsuc, ltb_ℤ, ltb_ℤ_below_trans}
use michi_music_stream.Rtp.Distance.{distance, is_behind}
use michi_music_stream.JitterBuffer.{
  Entry, Entries, null, internal, external, Slot, Jb, InsertResult, slots, slots_of, or_static,
  is_null, is_some, find_from, find,
}
use michi_music_stream.JitterBuffer.Insert.{replace, evict_slot, insert_new, store}
use michi_music_stream.JitterBuffer.Slots.{lookup, used_count, used_count-le-length, set-Freed}
use michi_music_stream.JitterBuffer.Victim.{
  Picked, stale, kept, farthest, pick_victim-Picked, Within, InArray,
}
use michi_music_stream.JitterBuffer.Valid.{
  IsValid, packet, Stored, store-Stored, Removed, free_slot-Removed,
}

abbrev pub Result : Type 0
Result = InsertResult × Option ℕ × Jb

-- What each verdict says of the buffer before and after.
abbrev pub Outcome : Jb → ℕ → Entry → Bool → InsertResult → Option ℕ → Jb → Type 0
Outcome jb playhead new refused InsertResult.ok evicted jb' =
    (evicted ≡ none)
    × (refused ≡ false)
    × IsValid jb'
    × (packet jb new.seq ≡ none)
    × ((s : ℕ) → packet jb' s ≡ (if new.seq == s then some new else packet jb s))
Outcome jb playhead new refused InsertResult.duplicate evicted jb' =
    (evicted ≡ none) × (jb' ≡ jb) × (is_some (packet jb new.seq) ≡ true)
Outcome jb playhead new refused InsertResult.overrun_dropped evicted jb' =
    (evicted ≡ none)
    × (jb' ≡ jb)
    × ((refused ≡ true)
        ⊎ ((jb.capacity ≤ jb.count) × Within (slots jb) playhead (distance new.seq playhead)))
Outcome jb playhead new refused InsertResult.overrun_evicted evicted jb' =
    (v : ℕ) × (evicted ≡ some v)
    × (refused ≡ false)
    × (jb.capacity ≤ jb.count)
    × (is_some (packet jb v) ≡ true)
    × (packet jb new.seq ≡ none)
    × ((is_behind v playhead ≡ true)
        ⊎ (ltb_ℤ (distance new.seq playhead) (distance v playhead) ≡ true)
          × Within (slots jb) playhead (distance v playhead))
    × IsValid jb'
    × ((s : ℕ)
        → packet jb' s ≡ (if new.seq == s then some new else if v == s then none else packet jb s))

abbrev pub OutcomeOf : Jb → ℕ → Entry → Bool → Result → Type 0
OutcomeOf jb playhead new refused r = Outcome jb playhead new refused r.0 r.1 r.2

pub find_from-lookup :
    (es : List Entry) (i seq : ℕ) → is_some (find_from es i seq) ≡ is_some (lookup es seq)
unfolding find_from is_some
find_from-lookup [] i seq = refl
find_from-lookup (e ∷ es) i seq = ground (arith, find_from-lookup es (suc i) seq)

pub find-lookup : (jb : Jb) (seq : ℕ) → is_some (find jb seq) ≡ is_some (packet jb seq)
unfolding find
find-lookup jb seq = find_from-lookup (slots jb) 0 seq

pub none_of_is_some {ℓ} : {A : Type ℓ} (o : Option A) → is_some o ≡ false → o ≡ none
unfolding is_some
none_of_is_some none h = refl
none_of_is_some (some a) h = absurd (cc)

pub not-null :
    (en : Entries) (static : List Entry) (n : ℕ)
    → length (slots_of en static n) ≡ n
    → 0 < n
    → is_null en ≡ false
unfolding slots_of is_null
not-null null static n h k = absurd (omega arith)
not-null internal static n h k = refl
not-null (external es) static n h k = refl

-- A valid buffer has its array, so the fallback does nothing.
pub or_static-valid : (jb : Jb) → IsValid jb → or_static jb ≡ jb
unfolding or_static
or_static-valid jb v =
    rw (not-null jb.entries jb.entries_static jb.capacity (unfold slots in v.sized) v.nonempty)

module _ (jb : Jb) (s : Slot) (v : IsValid jb) (a : InArray (slots jb) 0 s) where
  victim_at : get_elem? (slots jb) s.index ≡ some s.entry
  victim_at = subst (λ k. get_elem? (slots jb) k ≡ some s.entry) (omega (arith, a.index)) a.at

  evict_slot-Removed : Removed jb s.entry.seq (evict_slot jb s)
  unfolding evict_slot
  evict_slot-Removed = free_slot-Removed jb s.index s.entry v victim_at a.used

  packet-victim : packet jb s.entry.seq ≡ some s.entry
  packet-victim = (set-Freed (slots jb) s.index s.entry victim_at a.used v.distinct).1

-- The count is bounded by the array.
pub count-le : (jb : Jb) → IsValid jb → jb.count ≤ jb.capacity
count-le jb v = omega (arith, v.counted, v.sized, used_count-le-length (slots jb))

count-lt : {jb jb' : Jb} {seq : ℕ} → Removed jb seq jb' → IsValid jb → jb'.count < jb'.capacity
count-lt {jb} {jb'} m v = omega (arith, m.count, m.capacity, count-le jb v)

-- The victim is freed and the packet takes a free slot.
evict-Outcome :
    (jb : Jb) (playhead : ℕ) (new : Entry) (payload : Option (List ℕ)) (s : Slot)
    → IsValid jb
    → new.used ≡ true
    → packet jb new.seq ≡ none
    → jb.capacity ≤ jb.count
    → InArray (slots jb) 0 s
    → ((is_behind s.entry.seq playhead ≡ true)
        ⊎ (ltb_ℤ (distance new.seq playhead) (distance s.entry.seq playhead) ≡ true)
          × Within (slots jb) playhead (distance s.entry.seq playhead))
    → let r = store (evict_slot jb s) new payload InsertResult.overrun_evicted in
      Outcome jb playhead new false r.0 (some s.entry.seq) r.1
unfolding is_some
evict-Outcome jb playhead new payload s v u free full a why =
    let m = evict_slot-Removed jb s v a in
    let st : Stored (evict_slot jb s) new InsertResult.overrun_evicted
        (store (evict_slot jb s) new payload InsertResult.overrun_evicted) =
      store-Stored (evict_slot jb s) new payload InsertResult.overrun_evicted m.valid (count-lt m v)
        u (m.held new.seq ∙ ground (arith, free)) in
    subst
      (λ r.
        Outcome jb playhead new false r (some s.entry.seq)
          (store (evict_slot jb s) new payload InsertResult.overrun_evicted).1)
      (sym st.result)
      (
        s.entry.seq,
        refl,
        refl,
        full,
        rw (packet-victim jb s v a, is_some),
        free,
        why,
        st.valid,
        λ q. st.held q ∙ ground (arith, m.held q),
      )

-- An entry that is not behind the playhead lies at distance 0 or more.
used_count-Within :
    (es : List Entry) (playhead : ℕ) → Within es playhead (negsuc 0) → used_count es ≡ 0
used_count-Within [] playhead w = refl
used_count-Within (e ∷ es) playhead w = elim (Bool-cases e.used) [
  | inl u ↦ let (b, f) = w.0 u in absurd (ground arith)
  | inr u ↦ rw u (used_count-Within es playhead w.1)
]

Within-mono :
    (es : List Entry) (playhead seq near : ℕ)
    → ltb_ℤ (distance near playhead) (distance seq playhead) ≡ false
    → Within es playhead (distance seq playhead)
    → Within es playhead (distance near playhead)
Within-mono [] playhead seq near h w = tt
Within-mono (e ∷ es) playhead seq near h w = (
  λ u.
      ((w.0 u).0, ltb_ℤ_below_trans (distance near playhead) (distance seq playhead) _ h (w.0 u).1),
  Within-mono es playhead seq near h w.1,
)

module _ (jb : Jb) (playhead : ℕ) (new : Entry) (payload : Option (List ℕ)) (v : IsValid jb)
    (u : new.used ≡ true) (free : packet jb new.seq ≡ none) (full : jb.capacity ≤ jb.count) where
  replace-Outcome :
      (r : Option Slot)
      → Picked (slots jb) 0 playhead none (negsuc 0) r
      → OutcomeOf jb playhead new false (replace jb playhead new payload r)
  unfolding replace
  replace-Outcome r (stale s e a b) =
      rw (e, replace, b) (evict-Outcome jb playhead new payload s v u free full a (inl b))
  replace-Outcome r (kept e w) =
      absurd (omega (arith, used_count-Within (slots jb) playhead w, v.counted, v.nonempty))
  replace-Outcome r (farthest s e a f b w) =
      elim (Bool-cases (ltb_ℤ (distance new.seq playhead) (distance s.entry.seq playhead))) [
        | inl near ↦
            rw (e, replace, b, near)
              (evict-Outcome jb playhead new payload s v u free full a (inr (near, w)))
        | inr far ↦
            rw (e, replace, b, far)
              (refl, refl, inr (full, Within-mono (slots jb) playhead s.entry.seq new.seq far w))
      ]

pub insert_new-Outcome :
    (jb : Jb) (playhead : ℕ) (new : Entry) (payload : Option (List ℕ))
    → IsValid jb
    → new.used ≡ true
    → packet jb new.seq ≡ none
    → OutcomeOf jb playhead new false (insert_new jb playhead new payload)
unfolding insert_new
insert_new-Outcome jb playhead new payload v u free = elim (Bool-cases (leb jb.capacity jb.count)) [
  | inl full ↦ rw full (
      replace-Outcome jb playhead new payload v u free (ground arith) _
        (pick_victim-Picked (slots jb) 0 playhead none (negsuc 0)))
  | inr room ↦
      (let st = store-Stored jb new payload InsertResult.ok v (ground arith) u free in
        rw room (
          subst (λ r. Outcome jb playhead new false r none (store jb new payload InsertResult.ok).1)
            (sym st.result) (refl, refl, st.valid, free, st.held)))
]
