-- ===== src/Tests/Ops.antt =====
-- Runs of the operations gate and of the boot decision.
use michi_music_stream.Prelude.{
  true, false, List, [], ◌∷◌, ◌≡◌, refl, if◌then◌else◌, ◌&&◌, ◌||◌, not, ◌⊎◌,
}
use michi_music_stream.OpsGate.{
  boot_pending, ready, diagnostic, restricted, fatal, updating, ops_transition_valid, ops_set,
  playback_allowed,
}
use michi_music_stream.OpsGate.Race.{Window, Atomic, cas_loop, cas_loop-Atomic}
use michi_music_stream.Boot.{
  normal, pending_verify, boot_decide, boot_ops_target, is_fatal, is_pass, Observed, supervise,
  provable, UpdateGuard,
}
use michi_music_stream.Boot.Verdict.{boot_decide_lem}
use michi_music_stream.Boot.Supervision.{supervise-opens, supervise-lifts_failed_boot}

-- Another task stores FATAL between the load and the swap.
abbrev raced : List Window
raced = record { gate = fatal; spurious = false } ∷ []

cas_loop-Atomic_example : Atomic ready (cas_loop raced diagnostic ready)
cas_loop-Atomic_example = cas_loop-Atomic raced diagnostic ready

boot_decide_lem_example :
    let d = boot_decide pending_verify true true false in
    (d.restart_for_rollback ≡ (true && (not true || (true && not false))))
    × (d.restricted ≡ (false || (not true && not true)))
    × (d.report_verdict ≡ not false)
    × (is_pass d.verdict ≡ (true && (false && not false)))
    × (is_fatal d.verdict ≡ (not true || (true && (true && not false))))
boot_decide_lem_example = boot_decide_lem pending_verify true true false

abbrev healthy : Observed
healthy = record {
  output_faulted = false;
  audio_available = true;
  identity_ready = true;
  boot_class = normal;
}

supervise-opens_example :
    (true ≡ true)
    × ((diagnostic ≡ diagnostic)
          × (false ≡ false)
          × ((updating ≡ diagnostic) ⊎ (updating ≡ updating) ⊎ (updating ≡ boot_pending))
        ⊎ (diagnostic ≡ restricted)
          × (true ≡ true)
          × (provable normal ≡ true)
          × (updating ≡ restricted))
unfolding supervise playback_allowed ops_set ops_transition_valid
supervise-opens_example = supervise-opens diagnostic updating healthy refl refl

supervise-lifts_failed_boot_example :
    (boot_ops_target (boot_decide normal false true true) true ≡ restricted)
    × (supervise restricted restricted healthy ≡ (if true then ready else diagnostic))
unfolding provable
supervise-lifts_failed_boot_example = supervise-lifts_failed_boot normal true healthy refl refl refl

abbrev guard : UpdateGuard
guard = record { before_update = boot_pending; update_active = false }
