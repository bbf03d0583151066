-- ===== src/JitterBuffer/Behind.antt =====
-- The second loop of michi_jb_oldest: the packet with the greatest signed distance.
use michi_music_stream.Prelude.{
  ℕ, suc, ◌≡◌, refl, sym, subst, true, false, Option, none, some, List, [], ◌∷◌, arith, All, ◌⊎◌,
  inl, inr, Bool-cases, ◌&&◌,
}
use michi_music_stream.Prelude.Int.{ℤ, ltb_ℤ, ltb_ℤ_irrefl, ltb_ℤ_below_trans}
use michi_music_stream.Rtp.Distance.{distance}
use michi_music_stream.JitterBuffer.{Entry, Slot, latest_behind, nearer}
use michi_music_stream.JitterBuffer.Slots.{used_count}
use michi_music_stream.JitterBuffer.Victim.{InArray, InArray-here, InArray-cons, slot_at}

-- No used entry has a greater distance than `d`.
abbrev pub NoLater : List Entry → ℕ → ℤ → Type 0
NoLater es playhead d =
    All (λ (e : Entry). e.used ≡ true → ltb_ℤ d (distance e.seq playhead) ≡ false) es

abbrev pub NotAbove : Option Slot → ℕ → ℤ → Type 0
NotAbove none playhead d = Unit {0}
NotAbove (some b) playhead d = ltb_ℤ d (distance b.entry.seq playhead) ≡ false

pub data Latest (es : List Entry) (i playhead : ℕ) (best r : Option Slot) : Type 0 where
  empty : r ≡ none → best ≡ none → used_count es ≡ 0 → Latest es i playhead best r
  found :
      (s : Slot)
      → r ≡ some s
      → (InArray es i s) ⊎ (best ≡ some s)
      → NoLater es playhead (distance s.entry.seq playhead)
      → NotAbove best playhead (distance s.entry.seq playhead)
      → Latest es i playhead best r

below_of_above : (a b c : ℤ) → ltb_ℤ b c ≡ true → ltb_ℤ a c ≡ false → ltb_ℤ a b ≡ false
below_of_above a b c h k = ground arith

module _ (e : Entry) (es : List Entry) (i playhead : ℕ) where
  latest-take :
      (best : Option Slot)
      → e.used ≡ true
      → nearer e playhead best ≡ true
      → latest_behind (e ∷ es) i playhead best
        ≡ latest_behind es (suc i) playhead (some (slot_at i e))
  unfolding latest_behind
  latest-take best u b = rw (u, b)

  latest-skip :
      (best : Option Slot)
      → (e.used && nearer e playhead best) ≡ false
      → latest_behind (e ∷ es) i playhead best ≡ latest_behind es (suc i) playhead best
  unfolding latest_behind
  latest-skip best b = rw b

  Latest-take :
      (best r : Option Slot)
      → e.used ≡ true
      → nearer e playhead best ≡ true
      → Latest es (suc i) playhead (some (slot_at i e)) r
      → Latest (e ∷ es) i playhead best r
  unfolding nearer
  Latest-take best r u b (empty q n z) = absurd (cc)
  Latest-take none r u b (found s q at w n) = found s q (here s at) ((λ _. n), w) tt
    where
      here :
          (s : Slot)
          → (InArray es (suc i) s) ⊎ (some (slot_at i e) ≡ some s)
          → (InArray (e ∷ es) i s) ⊎ (none ≡ some s)
      here s (inl a) = inl (InArray-cons e es i s a)
      here s (inr q) =
          let same : slot_at i e ≡ s = cc in
          inl (subst (InArray (e ∷ es) i) same (InArray-here e es i u))
  Latest-take (some c) r u b (found s q at w n) =
      found s q (here s at) ((λ _. n), w)
        (below_of_above (distance s.entry.seq playhead) (distance c.entry.seq playhead)
          (distance e.seq playhead) b n)
    where
      here :
          (s : Slot)
          → (InArray es (suc i) s) ⊎ (some (slot_at i e) ≡ some s)
          → (InArray (e ∷ es) i s) ⊎ (some c ≡ some s)
      here s (inl a) = inl (InArray-cons e es i s a)
      here s (inr q) =
          let same : slot_at i e ≡ s = cc in
          inl (subst (InArray (e ∷ es) i) same (InArray-here e es i u))

  Latest-skip :
      (best r : Option Slot)
      → (e.used && nearer e playhead best) ≡ false
      → Latest es (suc i) playhead best r
      → Latest (e ∷ es) i playhead best r
  unfolding nearer
  Latest-skip none r b (empty q n z) = empty q n (ground arith)
  Latest-skip none r b (found s q at w n) =
      found s q (here s at) ((λ u. absurd (ground arith)), w) tt
    where
      here :
          (s : Slot)
          → (InArray es (suc i) s) ⊎ (none ≡ some s)
          → (InArray (e ∷ es) i s) ⊎ (none ≡ some s)
      here s (inl a) = inl (InArray-cons e es i s a)
      here s (inr q) = inr q
  Latest-skip (some c) r b (empty q n z) = absurd (cc)
  Latest-skip (some c) r b (found s q at w n) =
      found s q (here s at)
        (
          (λ u.
              ltb_ℤ_below_trans (distance s.entry.seq playhead) (distance c.entry.seq playhead)
                (distance e.seq playhead) n (rw u at b)),
          w,
        )
        n
    where
      here :
          (s : Slot)
          → (InArray es (suc i) s) ⊎ (some c ≡ some s)
          → (InArray (e ∷ es) i s) ⊎ (some c ≡ some s)
      here s (inl a) = inl (InArray-cons e es i s a)
      here s (inr q) = inr q

pub latest_behind-Latest :
    (es : List Entry) (i playhead : ℕ) (best : Option Slot)
    → Latest es i playhead best (latest_behind es i playhead best)
latest_behind-Latest [] i playhead none = empty (unfold latest_behind in refl) refl refl
latest_behind-Latest [] i playhead (some b) =
    found b (unfold latest_behind in refl) (inr refl) tt
      (ltb_ℤ_irrefl (distance b.entry.seq playhead))
latest_behind-Latest (e ∷ es) i playhead best =
    elim (Bool-cases (e.used && nearer e playhead best)) [
      | inl t ↦
          subst (Latest (e ∷ es) i playhead best)
            (sym (latest-take e es i playhead best (ground arith) (ground arith)))
            (Latest-take e es i playhead best _ (ground arith) (ground arith)
              (latest_behind-Latest es (suc i) playhead (some (slot_at i e))))
      | inr f ↦
          subst (Latest (e ∷ es) i playhead best) (sym (latest-skip e es i playhead best f))
            (Latest-skip e es i playhead best _ f (latest_behind-Latest es (suc i) playhead best))
    ]
