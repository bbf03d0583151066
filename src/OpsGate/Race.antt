-- ===== src/OpsGate/Race.antt =====
-- The compare-and-swap loop of `michi_ops_set` against other tasks that write the gate meanwhile.
use michi_music_stream.Prelude.{
  Bool, true, false, not, ◌&&◌, List, [], ◌∷◌, ◌≡◌, ◌⊎◌, refl, arith, if◌then◌else◌,
}
use michi_music_stream.OpsGate.{
  OpsState, boot_pending, ready, diagnostic, restricted, fatal, updating, ops_transition_valid,
  same_ops, OpsResult, done, refused,
}

-- What one round of the loop meets at its swap: the gate as the other tasks have left it, and
-- whether the weak exchange fails for no reason.
pub record Window : Type 0 where
  pub gate : OpsState
  pub spurious : Bool

-- How the call ended: its result, the gate that its last round met, and the gate it leaves.
pub record Swap : Type 0 where
  pub result : OpsResult
  pub met : OpsState
  pub after : OpsState

-- The loop. After the rounds listed no other task interferes, and the exchange succeeds.
unfoldable pub cas_loop : List Window → OpsState → OpsState → Swap
cas_loop [] expected to =
    if ops_transition_valid expected to
    then record { result = done; met = expected; after = to }
    else record { result = refused; met = expected; after = expected }
cas_loop (w ∷ ws) expected to =
    let again = cas_loop ws w.gate to in
    if not (ops_transition_valid expected to)
    then record { result = refused; met = expected; after = expected }
    else if same_ops w.gate expected && not w.spurious
    then record { result = done; met = w.gate; after = to }
    else again

pub same_ops_sound : (s t : OpsState) → same_ops s t ≡ true → s ≡ t
same_ops_sound boot_pending boot_pending h = refl
same_ops_sound ready ready h = refl
same_ops_sound diagnostic diagnostic h = refl
same_ops_sound restricted restricted h = refl
same_ops_sound fatal fatal h = refl
same_ops_sound updating updating h = refl
same_ops_sound s t h = absurd (cc)

-- How a swap relates to the gate that it met.
abbrev pub Atomic : OpsState → Swap → Type 0
Atomic to r =
    (r.result ≡ done) × (r.after ≡ to) × (ops_transition_valid r.met to ≡ true)
    ⊎ (r.result ≡ refused) × (r.after ≡ r.met) × (ops_transition_valid r.met to ≡ false)

-- Under any interference the call takes effect atomically: it succeeds only by a transition that is
-- valid from the very state it replaces, and is refused only by a state from which it is not, which
-- it leaves alone. No verdict of another task is lost.
pub cas_loop-Atomic :
    (ws : List Window) (expected to : OpsState) → Atomic to (cas_loop ws expected to)
unfolding cas_loop
cas_loop-Atomic [] expected to = ground arith
cas_loop-Atomic (w ∷ ws) expected to =
    ground (arith, cas_loop-Atomic ws w.gate to, same_ops_sound w.gate expected)

-- A FATAL verdict that another task stored before the swap is never overwritten.
pub cas_loop-fatal :
    (ws : List Window) (expected to : OpsState)
    → (cas_loop ws expected to).met ≡ fatal
    → (cas_loop ws expected to).after ≡ fatal
unfolding ops_transition_valid
cas_loop-fatal ws expected to h =
    ground (arith, cas_loop-Atomic ws expected to, same_ops_sound fatal to)
