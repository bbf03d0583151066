-- ===== src/Boot/Supervision.antt =====
-- The supervision loop of app_main and the update guard of michi_ota.c on the operational gate.
use michi_music_stream.Prelude.{Bool, true, false, ◌≡◌, ◌≢◌, ◌⊎◌, refl, arith, if◌then◌else◌}
use michi_music_stream.OpsGate.{
  OpsState, boot_pending, ready, diagnostic, restricted, fatal, updating, playback_allowed,
  ota_allowed, ops_set, ops_recover, ops_transition_valid,
}
use michi_music_stream.Boot.{
  BootClass, boot_decide, boot_ops_target, Observed, supervise, provable, UpdateGuard,
  enter_updating, exit_updating,
}

-- A round of the loop opens playback, whatever other tasks did to the gate since the round read it,
-- only with audio available, and only in two ways: the round saw DIAGNOSTIC with a healthy output, and
-- finds the gate at DIAGNOSTIC, UPDATING or BOOT_PENDING; or it saw RESTRICTED with a ready identity
-- and a provable image, and finds the gate still RESTRICTED.
pub supervise-opens :
    (seen gate : OpsState) (o : Observed)
    → playback_allowed gate ≡ false
    → playback_allowed (supervise seen gate o) ≡ true
    → (o.audio_available ≡ true)
      × ((seen ≡ diagnostic)
            × (o.output_faulted ≡ false)
            × ((gate ≡ diagnostic) ⊎ (gate ≡ updating) ⊎ (gate ≡ boot_pending))
          ⊎ (seen ≡ restricted)
            × (o.identity_ready ≡ true)
            × (provable o.boot_class ≡ true)
            × (gate ≡ restricted))
unfolding supervise ops_set ops_recover ops_transition_valid playback_allowed
supervise-opens seen gate o closed opens = (ground arith, ground arith)

-- A faulted output closes playback within one round that no other task interferes with.
pub supervise-closes :
    (gate : OpsState) (o : Observed)
    → o.output_faulted ≡ true
    → gate ≢ restricted
    → playback_allowed (supervise gate gate o) ≡ false
unfolding supervise ops_set ops_recover ops_transition_valid playback_allowed
supervise-closes gate o faulted n = ground arith

-- The restriction of a failed self-test does not last: on an image that is confirmed or has no OTA
-- history, with the identity ready, the first round after a boot whose critical checks failed lifts
-- it, to READY where audio is available and no other task interferes with the round.
pub supervise-lifts_failed_boot :
    (boot : BootClass) (expected_audio : Bool) (o : Observed)
    → provable boot ≡ true
    → o.boot_class ≡ boot
    → o.identity_ready ≡ true
    → (boot_ops_target (boot_decide boot false expected_audio o.audio_available) o.audio_available
        ≡ restricted)
      × (supervise restricted restricted o ≡ (if o.audio_available then ready else diagnostic))
unfolding boot_decide boot_ops_target supervise ops_recover provable
supervise-lifts_failed_boot boot expected_audio o p e i = (ground arith, ground arith)

abbrev idle_guard : UpdateGuard
idle_guard = record { before_update = boot_pending; update_active = false }

-- A failed update that began from a gate that allows firmware writes leaves the gate as it found it,
-- and one during which another task tightened the gate leaves that verdict alone.
pub exit_updating-enter_updating :
    (gate : OpsState) (g : UpdateGuard)
    → ota_allowed gate ≡ true
    → let (busy, g') = enter_updating gate g in
      (busy ≡ updating)
      × ((exit_updating busy g').0 ≡ gate)
      × ((exit_updating restricted g').0 ≡ restricted)
      × ((exit_updating fatal g').0 ≡ fatal)
unfolding enter_updating exit_updating ops_set ops_transition_valid ota_allowed
exit_updating-enter_updating ready g h = (refl, refl, refl, refl)
exit_updating-enter_updating diagnostic g h = (refl, refl, refl, refl)
exit_updating-enter_updating gate g h = absurd (cc)

-- A failed update that begins after the gate was restricted ends in DIAGNOSTIC.
pub exit_updating-restricted :
    (g : UpdateGuard)
    → let (busy, g') = enter_updating restricted g in (exit_updating busy g').0 ≡ diagnostic
unfolding enter_updating exit_updating ops_set ops_transition_valid
exit_updating-restricted g = refl
