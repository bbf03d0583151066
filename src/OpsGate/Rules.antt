-- ===== src/OpsGate/Rules.antt =====
-- The transition rules of the gate over any sequence of calls.
use michi_music_stream.Prelude.{true, ◌≡◌, ◌≢◌, ◌⊎◌, ◌↔◌, inl, inr, refl, arith}
use michi_music_stream.OpsGate.{
  OpsState, boot_pending, ready, diagnostic, restricted, fatal, updating, ops_transition_valid,
  ota_allowed,
}

-- The rules as michi_ops_gate.h lists them: the same state, the boot decision, tightening to
-- RESTRICTED, FATAL or UPDATING, the swap of READY and DIAGNOSTIC, and the return from UPDATING.
-- FATAL is terminal and BOOT_PENDING is never entered again.
pub data Rule : OpsState → OpsState → Type 0 where
  stay : (s : OpsState) → Rule s s
  boot : (s : OpsState) → Rule boot_pending s
  tighten :
      (s t : OpsState) → s ≢ fatal → (t ≡ restricted) ⊎ ((t ≡ fatal) ⊎ (t ≡ updating)) → Rule s t
  lose_audio : Rule ready diagnostic
  regain_audio : Rule diagnostic ready
  updated : (t : OpsState) → ota_allowed t ≡ true → Rule updating t

-- The C tests accept only what the rules of the header allow.
pub ops_transition_valid_sound : (s t : OpsState) → ops_transition_valid s t ≡ true → Rule s t
unfolding ops_transition_valid ota_allowed
ops_transition_valid_sound boot_pending t h = boot t
ops_transition_valid_sound ready ready h = stay ready
ops_transition_valid_sound ready diagnostic h = lose_audio
ops_transition_valid_sound diagnostic ready h = regain_audio
ops_transition_valid_sound diagnostic diagnostic h = stay diagnostic
ops_transition_valid_sound restricted restricted h = stay restricted
ops_transition_valid_sound fatal fatal h = stay fatal
ops_transition_valid_sound updating ready h = updated ready refl
ops_transition_valid_sound updating diagnostic h = updated diagnostic refl
ops_transition_valid_sound updating updating h = stay updating
ops_transition_valid_sound ready restricted h = tighten ready restricted (λ e. cc) (inl refl)
ops_transition_valid_sound ready fatal h = tighten ready fatal (λ e. cc) (inr (inl refl))
ops_transition_valid_sound ready updating h = tighten ready updating (λ e. cc) (inr (inr refl))
ops_transition_valid_sound diagnostic restricted h =
    tighten diagnostic restricted (λ e. cc) (inl refl)
ops_transition_valid_sound diagnostic fatal h = tighten diagnostic fatal (λ e. cc) (inr (inl refl))
ops_transition_valid_sound diagnostic updating h =
    tighten diagnostic updating (λ e. cc) (inr (inr refl))
ops_transition_valid_sound restricted fatal h = tighten restricted fatal (λ e. cc) (inr (inl refl))
ops_transition_valid_sound restricted updating h =
    tighten restricted updating (λ e. cc) (inr (inr refl))
ops_transition_valid_sound updating restricted h = tighten updating restricted (λ e. cc) (inl refl)
ops_transition_valid_sound updating fatal h = tighten updating fatal (λ e. cc) (inr (inl refl))
ops_transition_valid_sound s t h = absurd (cc)

ops_transition_valid_stay : (s : OpsState) → ops_transition_valid s s ≡ true
unfolding ops_transition_valid
ops_transition_valid_stay boot_pending = refl
ops_transition_valid_stay s = refl

ops_transition_valid_tighten :
    (s t : OpsState)
    → s ≢ fatal
    → (t ≡ restricted) ⊎ ((t ≡ fatal) ⊎ (t ≡ updating))
    → ops_transition_valid s t ≡ true
unfolding ops_transition_valid
ops_transition_valid_tighten boot_pending t n h = ground arith
ops_transition_valid_tighten s t n h = ground arith

-- Every rule of the header is accepted by the C tests.
pub ops_transition_valid_complete : (s t : OpsState) → Rule s t → ops_transition_valid s t ≡ true
ops_transition_valid_complete s t (stay x) = ops_transition_valid_stay x
ops_transition_valid_complete s t (boot x) = boots x
  where
    boots : (x : OpsState) → ops_transition_valid boot_pending x ≡ true
    boots boot_pending = unfold ops_transition_valid in refl
    boots x = unfold ops_transition_valid in refl
ops_transition_valid_complete s t (tighten x y n h) = ops_transition_valid_tighten x y n h
ops_transition_valid_complete s t lose_audio = unfold ops_transition_valid in refl
ops_transition_valid_complete s t regain_audio = unfold ops_transition_valid in refl
ops_transition_valid_complete s t (updated x h) = returns x h
  where
    returns : (x : OpsState) → ota_allowed x ≡ true → ops_transition_valid updating x ≡ true
    returns ready h = unfold ops_transition_valid in refl
    returns diagnostic h = unfold ops_transition_valid in refl
    returns boot_pending h = absurd (unfold ota_allowed in cc)
    returns restricted h = unfold ops_transition_valid in refl
    returns fatal h = unfold ops_transition_valid in refl
    returns updating h = unfold ops_transition_valid in refl

-- `ops_transition_valid` accepts a transition exactly when a rule of the header allows it.
pub ops_transition_valid_iff : (s t : OpsState) → (ops_transition_valid s t ≡ true) ↔ Rule s t
ops_transition_valid_iff s t = (ops_transition_valid_sound s t, ops_transition_valid_complete s t)
