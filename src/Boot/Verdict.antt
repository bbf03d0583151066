-- ===== src/Boot/Verdict.antt =====
-- The boot decision: what it says on every class of image, and that it agrees with the older
-- trial-boot gate.
use michi_music_stream.Prelude.{Bool, true, false, ◌&&◌, not, ◌≡◌, ◌≢◌, ◌↔◌, arith, ◌||◌}
use michi_music_stream.Boot.{
  BootClass, pending_verify, unknown_error, ReadResult, read_ok, ImageState, img_pending_verify,
  rollback_available, classify_boot_state, evaluate_trial_boot_gate, boot_decide, boot_ops_target,
  is_unknown, is_fatal, is_pass,
}
use michi_music_stream.OpsGate.{playback_allowed}

-- An image counts as awaiting verification only by a successful read of an OTA slot that says so,
-- so a missing OTA history never causes a rollback.
pub classify_boot_state-pending_iff :
    (known slot : Bool) (read : ReadResult) (image : ImageState)
    → (classify_boot_state known slot read image ≡ pending_verify)
      ↔ ((known ≡ true) × (slot ≡ true) × (read ≡ read_ok) × (image ≡ img_pending_verify))
unfolding classify_boot_state
classify_boot_state-pending_iff known slot read image =
    (λ h. (ground arith, ground arith, ground arith, ground arith), λ h. ground arith)

-- The image awaits its verification, and so has a version to roll back to; nothing is known of it.
abbrev pub awaits_verification : BootClass → Bool
awaits_verification pending_verify = true
awaits_verification _ = false

abbrev pub is_unprovable : BootClass → Bool
is_unprovable unknown_error = true
is_unprovable _ = false

-- The boot decision in closed form. A restart for rollback is asked for exactly where the image awaits
-- its verification and the critical checks failed or the expected audio is missing; the boot is
-- restricted exactly on an unprovable image or on a critical failure of an image that has nothing to
-- roll back to; the verdict is reported exactly for provable images; it is PASS exactly with the
-- critical checks, audio and a provable image; and it is FATAL exactly on a critical failure or where
-- an image that awaits its verification misses its expected audio.
pub boot_decide_lem :
    (boot : BootClass) (critical_ok expected_audio audio : Bool)
    → let d = boot_decide boot critical_ok expected_audio audio in
      let missing = expected_audio && not audio in
      (d.restart_for_rollback ≡ (awaits_verification boot && (not critical_ok || missing)))
      × (d.restricted ≡ (is_unprovable boot || (not critical_ok && not (awaits_verification boot))))
      × (d.report_verdict ≡ not (is_unprovable boot))
      × (is_pass d.verdict ≡ (critical_ok && (audio && not (is_unprovable boot))))
      × (is_fatal d.verdict ≡ (not critical_ok || (awaits_verification boot && missing)))
unfolding boot_decide is_fatal is_unknown rollback_available
boot_decide_lem boot critical_ok expected_audio audio =
    (ground arith, ground arith, ground arith, ground arith, ground arith)

-- On every image whose state is known the verdict is that of `evaluate_trial_boot_gate`, with a
-- trial boot being an image awaiting verification.
pub boot_decide-trial_boot_gate :
    (boot : BootClass) (critical_ok expected_audio audio : Bool)
    → boot ≢ unknown_error
    → (boot_decide boot critical_ok expected_audio audio).verdict
      ≡ evaluate_trial_boot_gate critical_ok (rollback_available boot) expected_audio audio
unfolding boot_decide evaluate_trial_boot_gate
boot_decide-trial_boot_gate boot critical_ok expected_audio audio n = ground arith

-- The authority that app_main publishes allows playback exactly for a known image with its critical
-- checks passed and audio available.
pub boot_ops_target-playback_iff :
    (boot : BootClass) (critical_ok expected_audio audio : Bool)
    → playback_allowed (boot_ops_target (boot_decide boot critical_ok expected_audio audio) audio)
      ≡ (not (is_unknown boot) && (critical_ok && audio))
unfolding boot_decide boot_ops_target playback_allowed
boot_ops_target-playback_iff boot critical_ok expected_audio audio = ground arith
