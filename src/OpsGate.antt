-- ===== src/OpsGate.antt =====
-- The operational authority of firmware/components/michi_product_profile/ops_gate.c: one atomic
-- state that every other component asks before it plays or updates.
pub mod Rules
pub mod Histories
pub mod Race
use michi_music_stream.Prelude.{
  ℕ, zero, suc, Bool, true, false, ◌&&◌, ◌||◌, Option, none, some, List, [], ◌∷◌, if◌then◌else◌,
  not, ◌≡◌,
}

-- `michi_ops_state_t`.
pub data OpsState : Type 0 where
  boot_pending ready diagnostic restricted fatal updating : OpsState

abbrev pub ops_code : OpsState → ℕ
ops_code boot_pending = 0
ops_code ready = 1
ops_code diagnostic = 2
ops_code restricted = 3
ops_code fatal = 4
ops_code updating = 5

-- The enumerators that a C integer stands for; `michi_ops_set` refuses the others.
abbrev pub ops_of_code : ℕ → Option OpsState
ops_of_code zero = some boot_pending
ops_of_code (suc zero) = some ready
ops_of_code (suc (suc zero)) = some diagnostic
ops_of_code (suc (suc (suc zero))) = some restricted
ops_of_code (suc (suc (suc (suc zero)))) = some fatal
ops_of_code (suc (suc (suc (suc (suc zero))))) = some updating
ops_of_code _ = none

-- `==` on the enumeration.
abbrev pub same_ops : OpsState → OpsState → Bool
same_ops boot_pending boot_pending = true
same_ops ready ready = true
same_ops diagnostic diagnostic = true
same_ops restricted restricted = true
same_ops fatal fatal = true
same_ops updating updating = true
same_ops _ _ = false

unfoldable pub playback_allowed : OpsState → Bool
playback_allowed s = same_ops s ready

unfoldable pub ota_allowed : OpsState → Bool
ota_allowed s = same_ops s ready || same_ops s diagnostic

-- `ops_transition_valid`, test by test.
unfoldable pub ops_transition_valid : OpsState → OpsState → Bool
ops_transition_valid from to =
    if same_ops from to
    then true
    else if same_ops from fatal
    then false
    else if same_ops to boot_pending
    then false
    else if same_ops from boot_pending
    then true
    else if same_ops to restricted || same_ops to fatal
    then true
    else if same_ops from updating
    then same_ops to ready || same_ops to diagnostic
    else if same_ops to updating
    then true
    else if same_ops from restricted
    then false
    else (same_ops from ready && same_ops to diagnostic)
      || (same_ops from diagnostic && same_ops to ready)

-- What `michi_ops_set` and `michi_ops_recover` return: 0, -1 and -2.
pub data OpsResult : Type 0 where
  done out_of_range refused : OpsResult

-- `michi_ops_set` with no other task between its load and its swap.
unfoldable pub ops_set : OpsState → ℕ → OpsResult × OpsState
ops_set gate code = elim (ops_of_code code) [
  | none ↦ (out_of_range, gate)
  | some to ↦ if ops_transition_valid gate to then (done, to) else (refused, gate)
]

unfoldable pub ops_recover : OpsState → OpsState → OpsResult × OpsState
unfolding ota_allowed
ops_recover gate target =
    if not (ota_allowed target)
    then (out_of_range, gate)
    else if same_ops gate restricted
    then (done, target)
    else (refused, gate)

-- A call of another component on the gate.
pub data OpsCall : Type 0 where
  set_to recover_to : OpsState → OpsCall

unfoldable pub ops_step : OpsState → OpsCall → OpsState
ops_step gate (set_to s) = (ops_set gate (ops_code s)).1
ops_step gate (recover_to s) = (ops_recover gate s).1

unfoldable pub ops_run : OpsState → List OpsCall → OpsState
ops_run gate [] = gate
ops_run gate (c ∷ cs) = ops_run (ops_step gate c) cs
