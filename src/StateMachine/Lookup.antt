-- ===== src/StateMachine/Lookup.antt =====
-- The lookup of the event map in michi_state.c against the transition table.
use michi_music_stream.Prelude.{
  ℕ, Bool, true, ◌&&◌, ◌||◌, some, List, [], ◌∷◌, ◌==◌, ◌≡◌, inl, inr, refl, sym, ap, subst, arith,
  All, if-cases, &&-both, ◌∙◌,
}
use michi_music_stream.StateMachine.{
  State, booting, self_test, unprovisioned, provisioning, wifi_connecting, idle, pairing,
  session_pending, buffering, playing, paused, updating, recoverable_error, fatal_error, state_code,
  state_of_code, find_code, transition_valid, MapEntry, event_map, find_entry, find_event_map,
}

pub state_of_code_lem : (s : State) → state_of_code (state_code s) ≡ some s
unfolding state_of_code find_code
state_of_code_lem booting = refl
state_of_code_lem self_test = refl
state_of_code_lem unprovisioned = refl
state_of_code_lem provisioning = refl
state_of_code_lem wifi_connecting = refl
state_of_code_lem idle = refl
state_of_code_lem pairing = refl
state_of_code_lem session_pending = refl
state_of_code_lem buffering = refl
state_of_code_lem playing = refl
state_of_code_lem paused = refl
state_of_code_lem updating = refl
state_of_code_lem recoverable_error = refl
state_of_code_lem fatal_error = refl

some_injective : {a b : State} → some a ≡ some b → a ≡ b
some_injective h = cc

state_code_injective : (s t : State) → (state_code s == state_code t) ≡ true → s ≡ t
state_code_injective s t h = some_injective (
    sym (state_of_code_lem s)
    ∙ ap state_of_code (code_eq (state_code s) (state_code t) h)
    ∙ state_of_code_lem t)
  where
    code_eq : (a b : ℕ) → (a == b) ≡ true → a ≡ b
    code_eq a b h = ground arith

IsAllowed : MapEntry → Type 0
IsAllowed m = transition_valid m.from m.target ≡ true

event_map-IsAllowed : All IsAllowed event_map
unfolding IsAllowed transition_valid
event_map-IsAllowed = (
  refl,
  (
    refl,
    (
      refl,
      (
        refl,
        (
          refl,
          (
            refl,
            (
              refl,
              (
                refl,
                (
                  refl,
                  (
                    refl,
                    (refl, (refl, (refl, (refl, (refl, (refl, (refl, (refl, (refl, tt))))))))),
                  ),
                ),
              ),
            ),
          ),
        ),
      ),
    ),
  ),
)

some_entry : {a b : MapEntry} → some a ≡ some b → a ≡ b
some_entry h = cc

find_entry-IsAllowed :
    (ms : List MapEntry) (id payload : ℕ) (from : State) (m : MapEntry)
    → All IsAllowed ms
    → find_entry ms id payload from ≡ some m
    → transition_valid from m.target ≡ true
unfolding find_entry IsAllowed
find_entry-IsAllowed [] id payload from m h e = cc
find_entry-IsAllowed (x ∷ xs) id payload from m h e =
    elim (if-cases hit (some x) (find_entry xs id payload from) (some m) e) [
      | inl (p, q) ↦
          subst (λ n. transition_valid from n.target ≡ true) (some_entry q)
            (subst (λ s. transition_valid s x.target ≡ true)
              (state_code_injective x.from from (&&-both _ _ (&&-both _ _ p).1).0) h.0)
      | inr (p, q) ↦ find_entry-IsAllowed xs id payload from m h.1 q
    ]
  where
    hit : Bool
    hit =
        x.id == id && (state_code x.from == state_code from && (x.any_data || x.payload == payload))

-- The event map never bypasses the transition table: the entry that a lookup finds is a valid
-- transition from the state it was looked up for.
pub find_event_map-transition_valid :
    (id payload : ℕ) (from : State) (m : MapEntry)
    → find_event_map id payload from ≡ some m
    → transition_valid from m.target ≡ true
unfolding find_event_map
find_event_map-transition_valid id payload from m e =
    find_entry-IsAllowed event_map id payload from m event_map-IsAllowed e
