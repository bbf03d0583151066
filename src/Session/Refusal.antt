-- ===== src/Session/Refusal.antt =====
-- What a heartbeat in michi_session.c rests on: the renewal, and the reason of each refusal, for the
-- live session.
use michi_music_stream.Prelude.{
  ℕ, ◌+◌, ◌<◌, Bool, true, false, ◌||◌, not, Option, none, some, List, ◌≡◌, refl, ◌⊎◌, inl, inr,
  arith, EspErr, if-split, is_ok, [], ◌≤◌, str_eq, str_eq_sound, sym, ap,
}
use michi_music_stream.Session.{Statics, SessionCtx, blank, Devices}
use michi_music_stream.Session.Text.{token_valid, token_matches}
use michi_music_stream.Session.Lease.{bump}
use michi_music_stream.Session.Start.{lease_us}
use michi_music_stream.Session.Calls.{text, is_null}
use michi_music_stream.Session.Queries.{
  HeartbeatResult, renew, is_replay, wrong_peer, renewed, heartbeat_live,
}

abbrev pub is_accepted : HeartbeatResult → Bool
is_accepted HeartbeatResult.ok = true
is_accepted r = false

-- What a renewal rests on, and what it writes.
pub record IsRenewal (given id : List ℕ) (sequence now : ℕ) (peer : List ℕ) (s s' : Statics)
    : Type 0 where
  pub was_active : s.active ≡ true
  pub token : token_matches given s.session.session_token ≡ true
  pub same_session : id ≡ s.session.info.session_id
  pub same_peer : peer ≡ s.session.info.source_addr
  pub fresh : (s.session.heartbeat_seq_valid ≡ false) ⊎ (s.session.last_heartbeat_seq < sequence)
  pub deadline : s'.session.lease_deadline_us ≡ now + 30000000
  pub last : s'.session.last_heartbeat_seq ≡ sequence
  pub armed : s'.session.heartbeat_seq_valid ≡ true
  pub still_active : s'.active ≡ true
  pub same_token : s'.session.session_token ≡ s.session.session_token

-- The session is as it was, or wiped.
abbrev pub KeepsSession : Statics → Statics → Type 0
KeepsSession s s' = (s'.session ≡ s.session) ⊎ (s'.session ≡ blank)

-- Whether a session is there and for how long, before the call.
module _ {W : Type 0} (dev : Devices W) where
  abbrev pub IsLate : Statics → W → Type 0
  IsLate s w = s.session.lease_deadline_us ≤ dev.time w

  abbrev pub IsAbsent : Statics → W → Type 0
  IsAbsent s w = (s.active ≡ false) ⊎ IsLate s w ⊎ (dev.audio_active w ≡ false)

  -- What must be the case before the call for an answer that refuses.
  unfoldable pub Reason :
      Option (List ℕ)
      → Option (List ℕ)
      → ℕ
      → Option (List ℕ)
      → Statics
      → W
      → HeartbeatResult
      → Type 0
  Reason token id n peer s w HeartbeatResult.ok = ⊥
  Reason token id n peer s w HeartbeatResult.no_session = (s.initialized ≡ false) ⊎ IsAbsent s w
  Reason token id n peer s w HeartbeatResult.token_mismatch =
      (token_valid token ≡ false) ⊎ (token_matches (text token) s.session.session_token ≡ false)
  Reason token id n peer s w HeartbeatResult.session_mismatch =
      (id ≡ none) ⊎ (str_eq (text id) s.session.info.session_id ≡ false)
  Reason token id n peer s w HeartbeatResult.source_mismatch =
      (peer ≡ none)
      ⊎ (text peer ≡ [])
      ⊎ (s.session.info.source_addr ≡ [])
      ⊎ (str_eq (text peer) s.session.info.source_addr ≡ false)
  Reason token id n peer s w HeartbeatResult.sequence_replay =
      (s.session.heartbeat_seq_valid ≡ true) × (n ≤ s.session.last_heartbeat_seq)
  Reason token id n peer s w HeartbeatResult.watchdog_error =
      IsLate s w ⊎ (is_ok (dev.timer_restart lease_us w).0 ≡ false)

-- The session's record is as it was, or wiped with the answer that there is none.
abbrev pub Leaves : {W : Type 0} → Statics → HeartbeatResult × Statics × W → Type 0
Leaves s r =
    (r.1.session ≡ s.session) ⊎ ((r.0 ≡ HeartbeatResult.no_session) × (r.1.session ≡ blank))

true_of_not : (b : Bool) → not b ≡ false → b ≡ true
true_of_not b h = ground arith

is_replay-fresh :
    (n : ℕ) (c : SessionCtx)
    → is_replay n c ≡ false
    → (c.heartbeat_seq_valid ≡ false) ⊎ (c.last_heartbeat_seq < n)
unfolding is_replay
is_replay-fresh n c h = ground arith

last_failed : (a b c : Bool) → (a || (b || not c)) ≡ false → c ≡ true
last_failed a b c h = ground arith

wrong_peer-eq :
    (peer : Option (List ℕ)) (c : SessionCtx)
    → wrong_peer peer c ≡ false
    → text peer ≡ c.info.source_addr
unfolding wrong_peer
wrong_peer-eq none c h = cc
wrong_peer-eq (some p) c h = str_eq_sound p c.info.source_addr (last_failed _ _ _ h)

pub false_of_not : (b : Bool) → not b ≡ true → b ≡ false
false_of_not b h = ground arith

is_replay-stale :
    (n : ℕ) (c : SessionCtx)
    → is_replay n c ≡ true
    → (c.heartbeat_seq_valid ≡ true) × (n ≤ c.last_heartbeat_seq)
unfolding is_replay
is_replay-stale n c h = (ground arith, ground arith)

one_of : (a b c : Bool) → (a || (b || not c)) ≡ true → (a ≡ true) ⊎ (b ≡ true) ⊎ (c ≡ false)
one_of a b c h = ground arith

wrong_peer-reason :
    (peer : Option (List ℕ)) (c : SessionCtx)
    → wrong_peer peer c ≡ true
    → (peer ≡ none)
      ⊎ (text peer ≡ [])
      ⊎ (c.info.source_addr ≡ [])
      ⊎ (str_eq (text peer) c.info.source_addr ≡ false)
unfolding wrong_peer
wrong_peer-reason none c h = inl refl
wrong_peer-reason (some p) c h =
    elim (one_of (str_eq p []) (str_eq c.info.source_addr []) (str_eq p c.info.source_addr) h) [
      | inl e ↦ inr (inl (str_eq_sound p [] e))
      | inr (inl e) ↦ inr (inr (inl (str_eq_sound c.info.source_addr [] e)))
      | inr (inr e) ↦ inr (inr (inr e))
    ]

pub is_null-reason : (id : Option (List ℕ)) → is_null id ≡ true → id ≡ none
is_null-reason none h = refl
is_null-reason (some i) h = cc

module _ {W : Type 0} (dev : Devices W) where
  abbrev pub Outcome :
      Option (List ℕ)
      → Option (List ℕ)
      → ℕ
      → Option (List ℕ)
      → Statics
      → W
      → HeartbeatResult × Statics × W
      → Type 0
  Outcome token id n peer s w r =
      ((is_accepted r.0 ≡ true)
        × IsRenewal (text token) (text id) n (dev.time r.2) (text peer) s r.1)
      ⊎ ((is_accepted r.0 ≡ false) × Leaves s r × Reason dev token id n peer s w r.0)

  module _ (token id : Option (List ℕ)) (n : ℕ) (peer : Option (List ℕ)) (s : Statics) (w : W) where
    abbrev O : HeartbeatResult × Statics × W → Type 0
    O = Outcome token id n peer s w

    renewed-Outcome :
        (e : EspErr) (w1 : W)
        → IsLate dev s w ⊎ (is_ok e ≡ is_ok (dev.timer_restart lease_us w).0)
        → s.active ≡ true
        → token_matches (text token) s.session.session_token ≡ true
        → text id ≡ s.session.info.session_id
        → text peer ≡ s.session.info.source_addr
        → (s.session.heartbeat_seq_valid ≡ false) ⊎ (s.session.last_heartbeat_seq < n)
        → O (renewed dev e n s w1)
    unfolding renewed renew bump Reason
    renewed-Outcome EspErr.ok w1 q a t i p f = inl (
      refl,
      record {
        was_active = a;
        token = t;
        same_session = i;
        same_peer = p;
        fresh = f;
        deadline = refl;
        last = refl;
        armed = refl;
        still_active = a;
        same_token = refl;
      },
    )
    renewed-Outcome e w1 (inl l) a t i p f = inr (refl, inl refl, inl l)
    renewed-Outcome e w1 (inr q) a t i p f = inr (refl, inl refl, inr (sym q))

    pub heartbeat_live-Outcome :
        (w1 : W)
        → IsLate dev s w ⊎ (w1 ≡ w)
        → s.active ≡ true
        → O (heartbeat_live dev (text token) (text id) n peer (false, s, w1))
    unfolding heartbeat_live Reason
    heartbeat_live-Outcome w1 q a =
        if-split P (not (token_matches (text token) s.session.session_token))
          (λ h. inr (refl, inl refl, inr (false_of_not _ h)))
          (λ t.
            if-split P (not (str_eq (text id) s.session.info.session_id))
              (λ h. inr (refl, inl refl, inr (false_of_not _ h)))
              (λ i.
                if-split P (wrong_peer peer s.session)
                  (λ h. inr (refl, inl refl, wrong_peer-reason peer s.session h))
                  (λ p.
                    if-split P (is_replay n s.session)
                      (λ h. inr (refl, inl refl, is_replay-stale n s.session h))
                      (λ f.
                        renewed-Outcome _ _ (same_restart q) a (true_of_not _ t)
                          (str_eq_sound (text id) s.session.info.session_id (true_of_not _ i))
                          (wrong_peer-eq peer s.session p) (is_replay-fresh n s.session f)))))
      where
        P : HeartbeatResult × Statics × W → Type 0
        P = Outcome token id n peer s w

        same_restart :
            IsLate dev s w ⊎ (w1 ≡ w)
            → IsLate dev s w
              ⊎ (is_ok (dev.timer_restart lease_us w1).0 ≡ is_ok (dev.timer_restart lease_us w).0)
        same_restart (inl l) = inl l
        same_restart (inr e) = inr (ap (λ x. is_ok (dev.timer_restart lease_us x).0) e)
