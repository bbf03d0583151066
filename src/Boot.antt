-- ===== src/Boot.antt =====
-- The boot health gate: firmware/components/michi_ota/michi_ota_logic.c (classification of the
-- running image and the boot decision) and the part of firmware/main/app_main.c that publishes the
-- operational authority and supervises it.
pub mod Verdict
pub mod Supervision
use michi_music_stream.Prelude.{
  ℕ, Bool, true, false, ◌&&◌, ◌||◌, not, List, [], ◌∷◌, if◌then◌else◌, ◌==◌,
}
use michi_music_stream.OpsGate.{
  OpsState, boot_pending, ready, diagnostic, restricted, fatal, updating, ops_set, ops_recover,
  ops_code, same_ops, OpsResult, done,
}

-- `ota_start_gate_t`.
pub data StartGate : Type 0 where
  start_ok start_busy start_pending_verify : StartGate

unfoldable pub ota_gate_check : Bool → Bool → StartGate
ota_gate_check task_running is_pending_verify =
    if task_running
    then start_busy
    else if is_pending_verify
    then start_pending_verify
    else start_ok

-- `ota_selftest_res_t`.
pub data Selftest : Type 0 where
  pass degraded fatal_test : Selftest

-- `michi_ota_read_result_t`.
pub data ReadResult : Type 0 where
  read_ok read_not_found read_not_supported read_invalid_arg read_error : ReadResult

-- `michi_ota_image_state_t`.
pub data ImageState : Type 0 where
  img_unknown img_new img_pending_verify img_valid img_invalid img_aborted img_undefined :
      ImageState

-- `michi_boot_ota_state_t`.
pub data BootClass : Type 0 where
  normal pending_verify uninitialized unknown_error : BootClass

-- `michi_boot_decision_t`.
pub record Decision : Type 0 where
  pub verdict : Selftest
  pub report_verdict : Bool
  pub restart_for_rollback : Bool
  pub restricted : Bool

unfoldable pub normalize_read_result : ℕ → ReadResult
normalize_read_result err =
    if err == 0
    then read_ok
    else if err == 0x105
    then read_not_found
    else if err == 0x106
    then read_not_supported
    else if err == 0x102
    then read_invalid_arg
    else read_error

unfoldable pub normalize_image_state : ℕ → ImageState
normalize_image_state code =
    if code == 0
    then img_new
    else if code == 1
    then img_pending_verify
    else if code == 2
    then img_valid
    else if code == 3
    then img_invalid
    else if code == 4
    then img_aborted
    else if code == 0xffff_ffff
    then img_undefined
    else img_unknown

unfoldable pub rollback_available : BootClass → Bool
rollback_available pending_verify = true
rollback_available _ = false

-- The second `switch` of `michi_ota_classify_boot_state`.
unfoldable pub classify_image : ImageState → BootClass
classify_image img_pending_verify = pending_verify
classify_image img_valid = normal
classify_image img_undefined = uninitialized
classify_image _ = unknown_error

unfoldable pub classify_slot : ReadResult → ImageState → BootClass
classify_slot read_ok image = classify_image image
classify_slot read_not_found image = uninitialized
classify_slot _ image = unknown_error

-- An image outside the OTA slots.
unfoldable pub classify_factory : ReadResult → BootClass
classify_factory read_not_supported = normal
classify_factory _ = unknown_error

unfoldable pub classify_boot_state : Bool → Bool → ReadResult → ImageState → BootClass
unfolding classify_slot classify_factory classify_image
classify_boot_state running_known running_is_ota_slot read image =
    if not running_known
    then unknown_error
    else if not running_is_ota_slot
    then classify_factory read
    else classify_slot read image

unfoldable pub evaluate_trial_boot_gate : Bool → Bool → Bool → Bool → Selftest
evaluate_trial_boot_gate critical_checks_ok trial_boot expected_audio audio_available =
    if not critical_checks_ok
    then fatal_test
    else if not audio_available
    then (if expected_audio && trial_boot then fatal_test else degraded)
    else pass

unfoldable pub is_unknown : BootClass → Bool
is_unknown unknown_error = true
is_unknown _ = false

unfoldable pub boot_decide : BootClass → Bool → Bool → Bool → Decision
unfolding is_unknown rollback_available
boot_decide boot critical_checks_ok expected_audio audio_available =
    if is_unknown boot
    then record {
      verdict = if critical_checks_ok then degraded else fatal_test;
      report_verdict = false;
      restart_for_rollback = false;
      restricted = true;
    }
    else if not critical_checks_ok
    then record {
      verdict = fatal_test;
      report_verdict = true;
      restart_for_rollback = rollback_available boot;
      restricted = not (rollback_available boot);
    }
    else if audio_available
    then record {
      verdict = pass;
      report_verdict = true;
      restart_for_rollback = false;
      restricted = false;
    }
    else if expected_audio && rollback_available boot
    then record {
      verdict = fatal_test;
      report_verdict = true;
      restart_for_rollback = true;
      restricted = false;
    }
    else record {
      verdict = degraded;
      report_verdict = true;
      restart_for_rollback = false;
      restricted = false;
    }

unfoldable pub is_fatal : Selftest → Bool
is_fatal fatal_test = true
is_fatal _ = false

abbrev pub is_pass : Selftest → Bool
is_pass pass = true
is_pass _ = false

-- The state that app_main publishes after the boot decision.
unfoldable pub boot_ops_target : Decision → Bool → OpsState
unfolding is_fatal
boot_ops_target d audio_available =
    if d.restricted
    then restricted
    else if is_fatal d.verdict
    then fatal
    else if not audio_available
    then diagnostic
    else ready

-- What one round of app_main's supervision loop reads of the other components.
pub record Observed : Type 0 where
  pub output_faulted : Bool
  pub audio_available : Bool
  pub identity_ready : Bool
  pub boot_class : BootClass

unfoldable pub provable : BootClass → Bool
provable normal = true
provable uninitialized = true
provable _ = false

-- One round: `seen` is what `michi_ops_get` answers at its start, `gate` is the gate when the call that
-- changes it, `michi_ops_set` or `michi_ops_recover`, reads it again. Another task may move it between.
unfoldable pub supervise : OpsState → OpsState → Observed → OpsState
unfolding provable
supervise seen gate o =
    if same_ops seen ready && o.output_faulted
    then (ops_set gate (ops_code diagnostic)).1
    else if same_ops seen diagnostic && (not o.output_faulted && o.audio_available)
    then (ops_set gate (ops_code ready)).1
    else if same_ops seen restricted && (o.identity_ready && provable o.boot_class)
    then (ops_recover gate (if o.audio_available then ready else diagnostic)).1
    else gate

-- `ops_enter_updating` and `ops_exit_updating` of michi_ota.c around a failed update: the gate after
-- each, with the state saved between them.
pub record UpdateGuard : Type 0 where
  pub before_update : OpsState
  pub update_active : Bool

is_done : OpsResult → Bool
is_done done = true
is_done _ = false

unfoldable pub enter_updating : OpsState → UpdateGuard → OpsState × UpdateGuard
unfolding is_done
enter_updating gate g =
    let (r, gate') = ops_set gate (ops_code updating) in
    (gate', record { before_update = gate; update_active = is_done r || g.update_active })

unfoldable pub exit_updating : OpsState → UpdateGuard → OpsState × UpdateGuard
exit_updating gate g = if not g.update_active then (gate, g) else (
  (ops_set gate (ops_code (if same_ops g.before_update ready then ready else diagnostic))).1,
  record g { update_active = false },
)
