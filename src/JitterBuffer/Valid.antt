-- ===== src/JitterBuffer/Valid.antt =====
-- The invariant of `michi_jb_t`, and what each operation of michi_jb.c keeps of it.
use michi_music_stream.Prelude.{
  ℕ, zero, suc, ◌-◌, ◌*◌, ◌≤◌, ◌<◌, ◌≡◌, refl, sym, ap, subst, true, Option, none, some, List, [],
  ◌∷◌, arith, ◌==◌, if◌then◌else◌, length, set, get_elem?, take, inl, inr, Bool-cases, ◌∙◌,
}
use michi_music_stream.JitterBuffer.{Entry, Jb, InsertResult, slots, with_slots}
use michi_music_stream.JitterBuffer.Insert.{blit, copy_payload, place, store, release_entry}
use michi_music_stream.JitterBuffer.Array.{with_slots-SameShape, slots-with_slots}
use michi_music_stream.JitterBuffer.Slots.{
  lookup, used_count, Distinct, Filled, fill-Filled, set-Freed,
}

-- The pool has a region of `rx_buf_bytes` for each slot.
abbrev pub PoolFits : Option (List ℕ) → ℕ → ℕ → Type 0
PoolFits none capacity rx = Unit {0}
PoolFits (some pool) capacity rx = capacity * rx ≤ length pool

pub record IsValid (jb : Jb) : Type 0 where
  pub sized : length (slots jb) ≡ jb.capacity
  pub nonempty : 0 < jb.capacity
  pub counted : jb.count ≡ used_count (slots jb)
  pub distinct : Distinct (slots jb)
  pub pool_fits : PoolFits jb.pool jb.capacity jb.rx_buf_bytes

-- The packet that the buffer holds under a sequence number.
abbrev pub packet : Jb → ℕ → Option Entry
packet jb seq = lookup (slots jb) seq

pub length-blit : (dst : List ℕ) (off : ℕ) (src : List ℕ) → length (blit dst off src) ≡ length dst
unfolding blit
length-blit [] off src = refl
length-blit (d ∷ ds) zero [] = refl
length-blit (d ∷ ds) zero (s ∷ src) = ap suc (length-blit ds zero src)
length-blit (d ∷ ds) (suc off) src = ap suc (length-blit ds off src)

copy_payload-PoolFits :
    (pool : Option (List ℕ)) (rx i : ℕ) (payload : Option (List ℕ)) (len capacity : ℕ)
    → PoolFits pool capacity rx
    → PoolFits (copy_payload pool rx i payload len) capacity rx
unfolding copy_payload
copy_payload-PoolFits none rx i payload len capacity h = tt
copy_payload-PoolFits (some pool) rx i none len capacity h = h
copy_payload-PoolFits (some pool) rx i (some bytes) len capacity h = elim (Bool-cases (len == 0)) [
  | inl z ↦ rw z h
  | inr z ↦ rw z (omega (arith, length-blit pool (i * rx) (take len bytes)))
]

-- What storing a new packet does where a slot is free.
pub record Stored (jb : Jb) (new : Entry) (res : InsertResult) (out : InsertResult × Jb)
    : Type 0 where
  pub result : out.0 ≡ res
  pub valid : IsValid out.1
  pub held : (s : ℕ) → packet out.1 s ≡ (if new.seq == s then some new else packet jb s)

place-Stored :
    (jb : Jb) (new : Entry) (payload : Option (List ℕ)) (res : InsertResult) (i : ℕ)
    (es : List Entry)
    → IsValid jb
    → Filled (slots jb) new i es
    → Stored jb new res (place jb payload new.len (some (i, es)) res)
unfolding place slots
place-Stored jb new payload res i es v f =
    let shape = with_slots-SameShape jb es in
    let back = slots-with_slots jb es f.same_length in
    record {
      result = refl;
      valid = record {
        sized = ap length back ∙ f.same_length ∙ v.sized ∙ sym shape.capacity;
        nonempty = rw shape.capacity v.nonempty;
        counted = omega (arith, v.counted, f.one_more, ap used_count back);
        distinct = subst Distinct (sym back) (f.distinct v.distinct);
        pool_fits =
            rw (shape.capacity, shape.rx_buf_bytes)
              (copy_payload-PoolFits jb.pool jb.rx_buf_bytes i payload new.len jb.capacity
                v.pool_fits);
      };
      held = λ s. ap (λ l. lookup l s) back ∙ f.held s;
    }

pub store-Stored :
    (jb : Jb) (new : Entry) (payload : Option (List ℕ)) (res : InsertResult)
    → IsValid jb
    → jb.count < jb.capacity
    → new.used ≡ true
    → packet jb new.seq ≡ none
    → Stored jb new res (store jb new payload res)
unfolding store
store-Stored jb new payload res v room u free =
    let (i, es, e, f) = fill-Filled (slots jb) new (omega (arith, v.counted, v.sized)) u free in
    subst (Stored jb new res) (sym (ap (λ o. place jb payload new.len o res) e))
      (place-Stored jb new payload res i es v f)

-- The array written with one packet freed, and the count one lower.
pub record Removed (jb : Jb) (seq : ℕ) (jb' : Jb) : Type 0 where
  pub valid : IsValid jb'
  pub held : (s : ℕ) → packet jb' s ≡ (if seq == s then none else packet jb s)
  pub count : suc jb'.count ≡ jb.count
  pub capacity : jb'.capacity ≡ jb.capacity

pub free_slot-Removed :
    (jb : Jb) (i : ℕ) (e : Entry)
    → IsValid jb
    → get_elem? (slots jb) i ≡ some e
    → e.used ≡ true
    → Removed jb e.seq
        (record (with_slots jb (set (slots jb) i (release_entry e))) { count = jb.count - 1 })
unfolding slots
free_slot-Removed jb i e v at u =
    let es = set (slots jb) i (release_entry e) in
    let (f, _) = set-Freed (slots jb) i e at u v.distinct in
    let shape = with_slots-SameShape jb es in
    let back = slots-with_slots jb es f.same_length in
    record {
      valid = record {
        sized = ap length back ∙ f.same_length ∙ v.sized ∙ sym shape.capacity;
        nonempty = rw shape.capacity v.nonempty;
        counted = omega (arith, v.counted, f.one_less, ap used_count back);
        distinct = subst Distinct (sym back) f.distinct;
        pool_fits = rw (shape.pool, shape.capacity, shape.rx_buf_bytes) v.pool_fits;
      };
      held = λ s. ap (λ l. lookup l s) back ∙ f.held s;
      count = omega (arith, v.counted, f.one_less);
      capacity = shape.capacity;
    }
