-- ===== src/Session/Renewal.antt =====
-- The lease's renewal in michi_session.c: which heartbeats renew it, and what the others leave.
use michi_music_stream.Prelude.{
  ℕ, Bool, true, false, ◌||◌, not, ◌≡◌, refl, ◌⊎◌, inl, inr, arith, EspErr, if-both, if-split, ltb,
  ◌≤◌, sym, subst,
}
use michi_music_stream.Session.{Statics, Devices}
use michi_music_stream.Session.Lease.{teardown, close_duties, expire_if_needed}
use michi_music_stream.Session.Queries.{find_session}
use michi_music_stream.Session.Closing.{IsClosed, teardown_lem, close_duties-statics}
use michi_music_stream.Session.Refusal.{KeepsSession, IsLate}

module _ {W : Type 0} (dev : Devices W) where
  close_duties-KeepsSession :
      (s : Statics) (r : EspErr × Statics × W)
      → KeepsSession s r.1
      → KeepsSession s (close_duties dev r).1
  close_duties-KeepsSession s r h = subst (KeepsSession s) (sym (close_duties-statics dev r).0) h

  teardown-KeepsSession : (b : Bool) (s : Statics) (w : W) → KeepsSession s (teardown dev b s w).1
  teardown-KeepsSession b s w = elim (teardown_lem dev b s w).1 [
    | inl (e, a, k) ↦ subst (KeepsSession s) (sym k) (inl refl)
    | inr (u, c) ↦ inr c.wiped
  ]

  abbrev Kept : Statics → {A : Type 0} → A × Statics × W → Type 0
  Kept s r = KeepsSession s r.1

  pub expire-KeepsSession : (s : Statics) (w : W) → KeepsSession s (expire_if_needed dev s w).1
  unfolding expire_if_needed
  expire-KeepsSession s w =
      if-both (Kept s) (not s.active || ltb (dev.time w) s.session.lease_deadline_us) (inl refl)
        (close_duties-KeepsSession s (teardown dev true s w) (teardown-KeepsSession true s w))

  -- What a search for the live session gives: it and the devices, untouched, or none, as there is
  -- none or its engine is dead.
  Search : Bool × Statics × W → Type 0
  Search r =
      let f = find_session dev r in
      ((f.0 ≡ false) × (f.1 ≡ r.1) × (f.2 ≡ r.2) × (r.1.active ≡ true))
      ⊎ ((f.0 ≡ true)
          × KeepsSession r.1 f.1
          × ((r.0 ≡ true) ⊎ (r.1.active ≡ false) ⊎ (dev.audio_active r.2 ≡ false)))

  pub expire-same :
      (s : Statics) (w : W)
      → ((expire_if_needed dev s w).1 ≡ s) ⊎ IsClosed true s (expire_if_needed dev s w).1
  unfolding expire_if_needed
  expire-same s w =
      if-both Same (not s.active || ltb (dev.time w) s.session.lease_deadline_us) (inl refl) (
        subst (λ x. (x ≡ s) ⊎ IsClosed true s x)
          (sym (close_duties-statics dev (teardown dev true s w)).0)
          (elim (teardown_lem dev true s w).1 [ inl (e, a, k) ↦ inl k | inr (u, c) ↦ inr c ]))
    where
      Same : Bool × Statics × W → Type 0
      Same r = (r.1 ≡ s) ⊎ IsClosed true s r.1

  -- The expiry leaves a session within its lease, and its devices, alone.
  abbrev pub Spares : Statics → W → Bool × Statics × W → Type 0
  Spares s w r = (r ≡ (false, s, w)) ⊎ IsLate dev s w

  is_due : (x y : ℕ) (a : Bool) → (not a || ltb x y) ≡ false → y ≤ x
  is_due x y a h = ground arith

  pub expire-Spares : (s : Statics) (w : W) → Spares s w (expire_if_needed dev s w)
  unfolding expire_if_needed
  expire-Spares s w =
      if-split (Spares s w) (not s.active || ltb (dev.time w) s.session.lease_deadline_us)
        (λ h. inl refl) (λ h. inr (is_due (dev.time w) s.session.lease_deadline_us s.active h))
