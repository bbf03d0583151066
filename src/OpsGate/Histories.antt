-- ===== src/OpsGate/Histories.antt =====
-- What holds of the gate over any sequence of calls.
use michi_music_stream.Prelude.{false, List, [], ◌∷◌, ◌≡◌, ◌≢◌, ◌⊎◌, inl, inr, refl, arith, All}
use michi_music_stream.OpsGate.{
  OpsState, boot_pending, ready, diagnostic, restricted, fatal, updating, OpsCall, set_to,
  recover_to, ops_transition_valid, ops_set, ops_recover, ops_step, ops_run, playback_allowed,
  ota_allowed,
}

step_fatal : (c : OpsCall) → ops_step fatal c ≡ fatal
unfolding ops_step ops_set ops_recover ops_transition_valid ota_allowed
step_fatal (set_to boot_pending) = refl
step_fatal (set_to s) = refl
step_fatal (recover_to boot_pending) = refl
step_fatal (recover_to s) = refl

-- FATAL is terminal: no sequence of calls leaves it.
pub ops_run-fatal : (cs : List OpsCall) → ops_run fatal cs ≡ fatal
unfolding ops_run
ops_run-fatal [] = refl
ops_run-fatal (c ∷ cs) = rw (step_fatal c) (ops_run-fatal cs)

abbrev pub IsHeld : OpsState → Type 0
IsHeld s = (s ≡ restricted) ⊎ (s ≡ fatal)

-- A call that neither recovers nor announces an update.
abbrev pub KeepsHold : OpsCall → Type 0
KeepsHold (set_to s) = s ≢ updating
KeepsHold (recover_to s) = ⊥

step-IsHeld : (s : OpsState) (c : OpsCall) → KeepsHold c → IsHeld s → IsHeld (ops_step s c)
unfolding ops_step ops_set ops_transition_valid
step-IsHeld restricted (set_to boot_pending) k h = inl refl
step-IsHeld restricted (set_to ready) k h = inl refl
step-IsHeld restricted (set_to diagnostic) k h = inl refl
step-IsHeld restricted (set_to restricted) k h = inl refl
step-IsHeld restricted (set_to fatal) k h = inr refl
step-IsHeld restricted (set_to updating) k h = absurd (k refl)
step-IsHeld fatal c k h = inr (step_fatal c)
step-IsHeld boot_pending c k h = absurd (ground arith)
step-IsHeld ready c k h = absurd (ground arith)
step-IsHeld diagnostic c k h = absurd (ground arith)
step-IsHeld updating c k h = absurd (ground arith)
step-IsHeld s (recover_to t) k h = absurd k

-- A restricted gate stays RESTRICTED or FATAL under any sequence of `michi_ops_set` calls none of
-- which asks for UPDATING.
pub ops_run-IsHeld :
    (s : OpsState) (cs : List OpsCall) → All KeepsHold cs → IsHeld s → IsHeld (ops_run s cs)
unfolding ops_run
ops_run-IsHeld s [] k h = h
ops_run-IsHeld s (c ∷ cs) k h = ops_run-IsHeld (ops_step s c) cs k.1 (step-IsHeld s c k.0 h)

-- A call that does not ask for READY.
abbrev pub NoReady : OpsCall → Type 0
NoReady (set_to s) = s ≢ ready
NoReady (recover_to s) = s ≢ ready

step-playback :
    (s : OpsState) (c : OpsCall)
    → NoReady c
    → playback_allowed s ≡ false
    → playback_allowed (ops_step s c) ≡ false
unfolding ops_step ops_set ops_recover playback_allowed
step-playback s (set_to ready) n h = absurd (n refl)
step-playback s (set_to t) n h = ground arith
step-playback s (recover_to ready) n h = absurd (n refl)
step-playback s (recover_to t) n h = ground arith

-- Playback is never enabled implicitly: a gate that denies it keeps denying it under any sequence of
-- calls none of which asks for READY.
pub ops_run-playback_denied :
    (s : OpsState) (cs : List OpsCall)
    → All NoReady cs
    → playback_allowed s ≡ false
    → playback_allowed (ops_run s cs) ≡ false
unfolding ops_run
ops_run-playback_denied s [] n h = h
ops_run-playback_denied s (c ∷ cs) n h =
    ops_run-playback_denied (ops_step s c) cs n.1 (step-playback s c n.0 h)
