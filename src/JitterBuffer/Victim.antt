-- ===== src/JitterBuffer/Victim.antt =====
-- Which slot the eviction scan of michi_jb_insert_packet chooses.
use michi_music_stream.Prelude.{
  ℕ, suc, ◌+◌, ◌≡◌, refl, sym, subst, true, false, Option, some, List, [], ◌∷◌, arith, get_elem?,
  All, Bool-cases, inl, inr,
}
use michi_music_stream.Prelude.Int.{ℤ, ltb_ℤ, ltb_ℤ_irrefl, ltb_ℤ_trans, ltb_ℤ_asymm, ltb_ℤ_below}
use michi_music_stream.Rtp.Distance.{distance, is_behind}
use michi_music_stream.JitterBuffer.{Entry, Slot}
use michi_music_stream.JitterBuffer.Insert.{pick_victim}

-- The slot is a used one of the array that starts at index `i`.
pub record InArray (es : List Entry) (i : ℕ) (s : Slot) : Type 0 where
  pub place : ℕ
  pub index : s.index ≡ i + place
  pub at : get_elem? es place ≡ some s.entry
  pub used : s.entry.used ≡ true

-- Every used entry lies ahead of the playhead, and no farther than `far`.
abbrev pub Within : List Entry → ℕ → ℤ → Type 0
Within es playhead far =
    All
      (λ (e : Entry).
        e.used ≡ true
        → (is_behind e.seq playhead ≡ false) × (ltb_ℤ far (distance e.seq playhead) ≡ false))
      es

pub data Picked (es : List Entry) (i playhead : ℕ) (evict : Option Slot) (far : ℤ) (r : Option Slot)
    : Type 0 where
  stale :
      (s : Slot)
      → r ≡ some s
      → InArray es i s
      → is_behind s.entry.seq playhead ≡ true
      → Picked es i playhead evict far r
  kept : r ≡ evict → Within es playhead far → Picked es i playhead evict far r
  farthest :
      (s : Slot)
      → r ≡ some s
      → InArray es i s
      → ltb_ℤ far (distance s.entry.seq playhead) ≡ true
      → is_behind s.entry.seq playhead ≡ false
      → Within es playhead (distance s.entry.seq playhead)
      → Picked es i playhead evict far r

pub InArray-cons :
    (e : Entry) (es : List Entry) (i : ℕ) (s : Slot) → InArray es (suc i) s → InArray (e ∷ es) i s
InArray-cons e es i s a = record {
  place = suc a.place;
  index = omega (arith, a.index);
  at = a.at;
  used = a.used;
}

abbrev pub slot_at : ℕ → Entry → Slot
slot_at i e = record { index = i; entry = e }

pub InArray-here :
    (e : Entry) (es : List Entry) (i : ℕ) → e.used ≡ true → InArray (e ∷ es) i (slot_at i e)
InArray-here e es i u = record { place = 0; index = omega arith; at = refl; used = u }

module _ (e : Entry) (es : List Entry) (i playhead : ℕ) (evict : Option Slot) (far : ℤ) where
  pick-stale :
      e.used ≡ true
      → is_behind e.seq playhead ≡ true
      → pick_victim (e ∷ es) i playhead evict far ≡ some (slot_at i e)
  unfolding pick_victim
  pick-stale u b = ground arith

  pick-far :
      e.used ≡ true
      → is_behind e.seq playhead ≡ false
      → ltb_ℤ far (distance e.seq playhead) ≡ true
      → pick_victim (e ∷ es) i playhead evict far
        ≡ pick_victim es (suc i) playhead (some (slot_at i e)) (distance e.seq playhead)
  unfolding pick_victim
  pick-far u b f = ground arith

  pick-skip :
      (e.used ≡ true
        → (is_behind e.seq playhead ≡ false) × (ltb_ℤ far (distance e.seq playhead) ≡ false))
      → pick_victim (e ∷ es) i playhead evict far ≡ pick_victim es (suc i) playhead evict far
  unfolding pick_victim
  pick-skip h = ground arith

  -- The scan goes on with the head as its candidate.
  Picked-far :
      (r : Option Slot)
      → e.used ≡ true
      → is_behind e.seq playhead ≡ false
      → ltb_ℤ far (distance e.seq playhead) ≡ true
      → Picked es (suc i) playhead (some (slot_at i e)) (distance e.seq playhead) r
      → Picked (e ∷ es) i playhead evict far r
  Picked-far r u b f (stale s q a t) = stale s q (InArray-cons e es i s a) t
  Picked-far r u b f (kept q w) =
      farthest (slot_at i e) q (InArray-here e es i u) f b
        ((λ _. (b, ltb_ℤ_irrefl (distance e.seq playhead))), w)
  Picked-far r u b f (farthest s q a g t w) =
      farthest s q (InArray-cons e es i s a)
        (ltb_ℤ_trans far (distance e.seq playhead) (distance s.entry.seq playhead) f g) t
        ((λ _. (b, ltb_ℤ_asymm (distance e.seq playhead) (distance s.entry.seq playhead) g)), w)

  -- The scan passes over the head.
  Picked-skip :
      (r : Option Slot)
      → (e.used ≡ true
          → (is_behind e.seq playhead ≡ false) × (ltb_ℤ far (distance e.seq playhead) ≡ false))
      → Picked es (suc i) playhead evict far r
      → Picked (e ∷ es) i playhead evict far r
  Picked-skip r h (stale s q a t) = stale s q (InArray-cons e es i s a) t
  Picked-skip r h (kept q w) = kept q (h, w)
  Picked-skip r h (farthest s q a g t w) = farthest s q (InArray-cons e es i s a) g t (
    (λ u. (
      (h u).0,
      ltb_ℤ_below far (distance e.seq playhead) (distance s.entry.seq playhead) (h u).1 g,
    )),
    w,
  )

pub pick_victim-Picked :
    (es : List Entry) (i playhead : ℕ) (evict : Option Slot) (far : ℤ)
    → Picked es i playhead evict far (pick_victim es i playhead evict far)
pick_victim-Picked [] i playhead evict far = kept (unfold pick_victim in refl) tt
pick_victim-Picked (e ∷ es) i playhead evict far = elim (Bool-cases e.used) [
  | inr free ↦ skip (pick_victim-Picked es (suc i) playhead evict far) (λ u. absurd (cc))
  | inl u ↦ elim (Bool-cases (is_behind e.seq playhead)) [
    | inl b ↦
        rw (pick-stale e es i playhead evict far u b)
          (stale (slot_at i e) refl (InArray-here e es i u) b)
    | inr b ↦ elim (Bool-cases (ltb_ℤ far (distance e.seq playhead))) [
      | inl f ↦
          subst (Picked (e ∷ es) i playhead evict far)
            (sym (pick-far e es i playhead evict far u b f))
            (Picked-far e es i playhead evict far _ u b f (
              pick_victim-Picked es (suc i) playhead (some (slot_at i e))
                (distance e.seq playhead)))
      | inr f ↦ skip (pick_victim-Picked es (suc i) playhead evict far) (λ _. (b, f))
    ]
  ]
]
  where
    skip :
        Picked es (suc i) playhead evict far (pick_victim es (suc i) playhead evict far)
        → (e.used ≡ true
            → (is_behind e.seq playhead ≡ false) × (ltb_ℤ far (distance e.seq playhead) ≡ false))
        → Picked (e ∷ es) i playhead evict far (pick_victim (e ∷ es) i playhead evict far)
    skip rest h =
        subst (Picked (e ∷ es) i playhead evict far) (sym (pick-skip e es i playhead evict far h))
          (Picked-skip e es i playhead evict far _ h rest)
