-- ===== src/JitterBuffer/Ahead.antt =====
-- The first loop of michi_jb_oldest: the nearest packet that is not behind the playhead.
use michi_music_stream.Prelude.{
  ℕ, suc, ◌≡◌, refl, sym, subst, true, false, Option, some, List, [], ◌∷◌, arith, All, inl, inr,
  Bool-cases,
}
use michi_music_stream.Prelude.Int.{ℤ, ltb_ℤ, ltb_ℤ_irrefl, ltb_ℤ_trans, ltb_ℤ_asymm}
use michi_music_stream.Rtp.Distance.{distance, is_behind}
use michi_music_stream.JitterBuffer.{Entry, Slot, nearest_ahead}
use michi_music_stream.JitterBuffer.Victim.{InArray, InArray-here, InArray-cons, slot_at}

-- Every used entry is behind the playhead or no nearer than `d`.
abbrev pub NoneNearer : List Entry → ℕ → ℤ → Type 0
NoneNearer es playhead d =
    All
      (λ (e : Entry).
        e.used ≡ true
        → is_behind e.seq playhead ≡ false
        → ltb_ℤ (distance e.seq playhead) d ≡ false)
      es

pub data Ahead (es : List Entry) (i playhead : ℕ) (best : Option Slot) (d : ℤ) (r : Option Slot)
    : Type 0 where
  kept : r ≡ best → NoneNearer es playhead d → Ahead es i playhead best d r
  found :
      (s : Slot)
      → r ≡ some s
      → InArray es i s
      → is_behind s.entry.seq playhead ≡ false
      → ltb_ℤ (distance s.entry.seq playhead) d ≡ true
      → NoneNearer es playhead (distance s.entry.seq playhead)
      → Ahead es i playhead best d r

module _ (e : Entry) (es : List Entry) (i playhead : ℕ) (best : Option Slot) (d : ℤ) where
  nearest-take :
      e.used ≡ true
      → is_behind e.seq playhead ≡ false
      → ltb_ℤ (distance e.seq playhead) d ≡ true
      → nearest_ahead (e ∷ es) i playhead best d
        ≡ nearest_ahead es (suc i) playhead (some (slot_at i e)) (distance e.seq playhead)
  unfolding nearest_ahead
  nearest-take u b f = ground arith

  nearest-skip :
      (e.used ≡ true → is_behind e.seq playhead ≡ false → ltb_ℤ (distance e.seq playhead) d ≡ false)
      → nearest_ahead (e ∷ es) i playhead best d ≡ nearest_ahead es (suc i) playhead best d
  unfolding nearest_ahead
  nearest-skip h = ground arith

  Ahead-take :
      (r : Option Slot)
      → e.used ≡ true
      → is_behind e.seq playhead ≡ false
      → ltb_ℤ (distance e.seq playhead) d ≡ true
      → Ahead es (suc i) playhead (some (slot_at i e)) (distance e.seq playhead) r
      → Ahead (e ∷ es) i playhead best d r
  Ahead-take r u b f (kept q w) =
      found (slot_at i e) q (InArray-here e es i u) b f
        ((λ _ _. ltb_ℤ_irrefl (distance e.seq playhead)), w)
  Ahead-take r u b f (found s q a t g w) =
      found s q (InArray-cons e es i s a) t
        (ltb_ℤ_trans (distance s.entry.seq playhead) (distance e.seq playhead) d g f)
        ((λ _ _. ltb_ℤ_asymm (distance s.entry.seq playhead) (distance e.seq playhead) g), w)

  Ahead-skip :
      (r : Option Slot)
      → (e.used ≡ true
          → is_behind e.seq playhead ≡ false
          → ltb_ℤ (distance e.seq playhead) d ≡ false)
      → Ahead es (suc i) playhead best d r
      → Ahead (e ∷ es) i playhead best d r
  Ahead-skip r h (kept q w) = kept q (h, w)
  Ahead-skip r h (found s q a t g w) =
      found s q (InArray-cons e es i s a) t g
        ((λ u b. above (distance e.seq playhead) (distance s.entry.seq playhead) (h u b) g), w)
    where
      above : (x y : ℤ) → ltb_ℤ x d ≡ false → ltb_ℤ y d ≡ true → ltb_ℤ x y ≡ false
      above x y p q = ground arith

pub nearest_ahead-Ahead :
    (es : List Entry) (i playhead : ℕ) (best : Option Slot) (d : ℤ)
    → Ahead es i playhead best d (nearest_ahead es i playhead best d)
nearest_ahead-Ahead [] i playhead best d = kept (unfold nearest_ahead in refl) tt
nearest_ahead-Ahead (e ∷ es) i playhead best d = elim (Bool-cases e.used) [
  | inr free ↦ skip (λ u. absurd (cc)) (nearest_ahead-Ahead es (suc i) playhead best d)
  | inl u ↦ elim (Bool-cases (is_behind e.seq playhead)) [
    | inl b ↦ skip (λ _ c. absurd (cc)) (nearest_ahead-Ahead es (suc i) playhead best d)
    | inr b ↦ elim (Bool-cases (ltb_ℤ (distance e.seq playhead) d)) [
      | inl f ↦
          subst (Ahead (e ∷ es) i playhead best d) (sym (nearest-take e es i playhead best d u b f))
            (Ahead-take e es i playhead best d _ u b f (
              nearest_ahead-Ahead es (suc i) playhead (some (slot_at i e))
                (distance e.seq playhead)))
      | inr f ↦ skip (λ _ _. f) (nearest_ahead-Ahead es (suc i) playhead best d)
    ]
  ]
]
  where
    skip :
        (e.used ≡ true
          → is_behind e.seq playhead ≡ false
          → ltb_ℤ (distance e.seq playhead) d ≡ false)
        → Ahead es (suc i) playhead best d (nearest_ahead es (suc i) playhead best d)
        → Ahead (e ∷ es) i playhead best d (nearest_ahead (e ∷ es) i playhead best d)
    skip h rest =
        subst (Ahead (e ∷ es) i playhead best d) (sym (nearest-skip e es i playhead best d h))
          (Ahead-skip e es i playhead best d _ h rest)
