-- ===== src/Session/Closing.antt =====
-- How a session ends in michi_session.c: the teardown and the expiry of the lease.
use michi_music_stream.Prelude.{
  ◌+◌, ◌%◌, ◌^◌, ◌≤◌, ◌<◌, Bool, true, false, if◌then◌else◌, ◌≡◌, refl, ◌⊎◌, inl, inr, EspErr,
  is_ok, Bool-cases, ltb-cases, ap, sym, subst, ◌∙◌,
}
use michi_music_stream.Session.{Statics, blank, Devices}
use michi_music_stream.Session.Lease.{
  bump, set_state, wipe, count_expiry, finish_close, teardown, close_duties, expire_if_needed,
}

-- The session is gone, its record and its credential wiped, and the expiry counted or not.
pub record IsClosed (by_lease : Bool) (s s' : Statics) : Type 0 where
  pub inactive : s'.active ≡ false
  pub wiped : s'.session ≡ blank
  pub counted :
      s'.lease_expirations
      ≡ (if by_lease then (s.lease_expirations + 1) % 2 ^ 32 else s.lease_expirations)
  pub generation : s'.lease_generation ≡ (s.lease_generation + 1) % 2 ^ 32

module _ {W : Type 0} (dev : Devices W) where
  count_expiry-IsClosed :
      (by_lease : Bool) (s s0 : Statics)
      → s0.lease_expirations ≡ s.lease_expirations
      → s0.lease_generation ≡ s.lease_generation
      → IsClosed by_lease s (count_expiry by_lease (wipe s0))
  unfolding count_expiry wipe bump
  count_expiry-IsClosed true s s0 h k = record {
    inactive = refl;
    wiped = refl;
    counted = rw h refl;
    generation = rw k refl;
  }
  count_expiry-IsClosed false s s0 h k = record {
    inactive = refl;
    wiped = refl;
    counted = h;
    generation = rw k refl;
  }

  -- The engine stopped, or answered an error and does not run any more.
  abbrev pub HasStopped : W → Type 0
  HasStopped w =
      (is_ok (dev.audio_stop w).0 ≡ true) ⊎ (dev.audio_active (dev.audio_stop w).1 ≡ false)

  -- A teardown keeps the session as it was exactly when the engine answered an error and still runs,
  -- and closes it otherwise; it returns the engine's answer.
  pub teardown_lem :
      (by_lease : Bool) (s : Statics) (w : W)
      → ((teardown dev by_lease s w).0 ≡ (dev.audio_stop w).0)
        × (((is_ok (dev.audio_stop w).0 ≡ false)
              × (dev.audio_active (dev.audio_stop w).1 ≡ true)
              × ((teardown dev by_lease s w).1 ≡ s))
            ⊎ (HasStopped w × IsClosed by_lease s (teardown dev by_lease s w).1))
  unfolding teardown set_state finish_close
  teardown_lem by_lease s w = elim (Bool-cases (is_ok (dev.audio_stop w).0)) [
    | inl e ↦ simp e (refl, inr (inl refl, count_expiry-IsClosed by_lease s _ refl refl))
    | inr e ↦ elim (Bool-cases (dev.audio_active (dev.audio_stop w).1)) [
      | inl a ↦ simp (e, a) (refl, inl (refl, refl, refl))
      | inr a ↦ simp (e, a) (refl, inr (inr refl, count_expiry-IsClosed by_lease s _ refl refl))
    ]
  ]

  pub close_duties-statics :
      (r : EspErr × Statics × W)
      → ((close_duties dev r).1 ≡ r.1) × ((close_duties dev r).0 ≡ is_ok r.0)
  unfolding close_duties
  close_duties-statics (EspErr.ok, s, w) = (refl, refl)
  close_duties-statics (e, s, w) = (refl, refl)

  -- Before the deadline nothing changes; from it on the session is kept, where the engine answered
  -- an error and still runs, or closed, where it does not.
  abbrev pub ExpiryOutcome : Statics → W → Bool × Statics × W → Type 0
  ExpiryOutcome s w r =
      ((dev.time w < s.session.lease_deadline_us) × (r ≡ (false, s, w)))
      ⊎ ((s.session.lease_deadline_us ≤ dev.time w)
          × (((is_ok (dev.audio_stop w).0 ≡ false)
                × (dev.audio_active (dev.audio_stop w).1 ≡ true)
                × (r.0 ≡ false)
                × (r.1 ≡ s))
              ⊎ (HasStopped w × (r.0 ≡ is_ok (dev.audio_stop w).0) × IsClosed true s r.1)))

  -- Before its deadline a session is left alone. From the deadline on it is kept as it was, for a
  -- retry, exactly when the engine answers the stop with an error and still runs; otherwise it is
  -- closed, its record wiped and one expiry counted, and the call says whether the engine stopped
  -- without an error.
  pub expire_if_needed_lem :
      (s : Statics) (w : W) → s.active ≡ true → ExpiryOutcome s w (expire_if_needed dev s w)
  unfolding expire_if_needed
  expire_if_needed_lem s w h = elim (ltb-cases (dev.time w) s.session.lease_deadline_us) [
    | inl (e, l) ↦ inl (l, simp (h, e))
    | inr (e, l) ↦ inr (l, simp (h, e) (outcome (teardown_lem true s w)))
  ]
    where
      r : EspErr × Statics × W
      r = teardown dev true s w

      outcome :
          (r.0 ≡ (dev.audio_stop w).0)
            × (((is_ok (dev.audio_stop w).0 ≡ false)
                  × (dev.audio_active (dev.audio_stop w).1 ≡ true)
                  × (r.1 ≡ s))
                ⊎ (HasStopped w × IsClosed true s r.1))
          → ((is_ok (dev.audio_stop w).0 ≡ false)
              × (dev.audio_active (dev.audio_stop w).1 ≡ true)
              × ((close_duties dev r).0 ≡ false)
              × ((close_duties dev r).1 ≡ s))
            ⊎ (HasStopped w
                × ((close_duties dev r).0 ≡ is_ok (dev.audio_stop w).0)
                × IsClosed true s (close_duties dev r).1)
      outcome (q, inl (e, a, k)) =
          inl (e, a, (close_duties-statics r).1 ∙ ap is_ok q ∙ e, (close_duties-statics r).0 ∙ k)
      outcome (q, inr (u, c)) = inr (
        u,
        (close_duties-statics r).1 ∙ ap is_ok q,
        subst (IsClosed true s) (sym (close_duties-statics r).0) c,
      )
