-- ===== src/JitterBuffer/Slots.antt =====
-- The slot array of michi_jb.c as a map from sequence numbers to packets: what filling, freeing and
-- discarding slots does to it.
use michi_music_stream.Prelude.{
  ℕ, zero, suc, ◌+◌, ◌≤◌, ◌<◌, ◌≡◌, refl, ap, true, false, ◌&&◌, Option, none, some, List, [], ◌∷◌,
  map, arith, ==_iff, ◌==◌, if◌then◌else◌, length, set, get_elem?, inl, inr, Bool-cases,
}
use michi_music_stream.Rtp.Distance.{is_behind}
use michi_music_stream.JitterBuffer.{Entry, empty_entry}
use michi_music_stream.JitterBuffer.Insert.{fill, release_entry, discard}

-- The packet that is held under a sequence number.
abbrev pub lookup : List Entry → ℕ → Option Entry
lookup [] seq = none
lookup (e ∷ es) seq = if e.used && e.seq == seq then some e else lookup es seq

abbrev pub used_count : List Entry → ℕ
used_count [] = 0
used_count (e ∷ es) = if e.used then suc (used_count es) else used_count es

-- No sequence number is held twice.
abbrev pub Distinct : List Entry → Type 0
Distinct [] = Unit {0}
Distinct (e ∷ es) = (e.used ≡ true → lookup es e.seq ≡ none) × Distinct es

pub used_count-le-length : (es : List Entry) → used_count es ≤ length es
used_count-le-length [] = omega arith
used_count-le-length (e ∷ es) = ground (arith, used_count-le-length es)

-- What `fill` did: a free slot within the array holds the packet, and nothing else changed.
pub record Filled (es : List Entry) (new : Entry) (i : ℕ) (es' : List Entry) : Type 0 where
  pub in_range : i < length es
  pub same_length : length es' ≡ length es
  pub one_more : used_count es' ≡ suc (used_count es)
  pub held : (s : ℕ) → lookup es' s ≡ (if new.seq == s then some new else lookup es s)
  pub distinct : Distinct es → Distinct es'

Filled-cons :
    (e new : Entry) (es : List Entry) (i : ℕ) (es' : List Entry)
    → e.used ≡ true
    → lookup (e ∷ es) new.seq ≡ none
    → Filled es new i es'
    → Filled (e ∷ es) new (suc i) (e ∷ es')
Filled-cons e new es i es' u free f = record {
  in_range = omega (arith, f.in_range);
  same_length = omega (arith, f.same_length);
  one_more = ground (arith, f.one_more);
  held = λ s. ground (arith, f.held s);
  distinct = λ d. (λ _. ground (arith, f.held e.seq, d.0 u), f.distinct d.1);
}

Filled-here :
    (e new : Entry) (es : List Entry)
    → e.used ≡ false
    → new.used ≡ true
    → lookup es new.seq ≡ none
    → Filled (e ∷ es) new 0 (new ∷ es)
Filled-here e new es u n free = record {
  in_range = omega arith;
  same_length = refl;
  one_more = ground arith;
  held = λ s. ground arith;
  distinct = λ d. (λ _. free, d.1);
}

fill-used :
    (e new : Entry) (es es' : List Entry) (i : ℕ)
    → e.used ≡ true
    → fill es new ≡ some (i, es')
    → fill (e ∷ es) new ≡ some (suc i, e ∷ es')
unfolding fill
fill-used e new es es' i u eq = ground arith

fill-free :
    (e new : Entry) (es : List Entry) → e.used ≡ false → fill (e ∷ es) new ≡ some (0, new ∷ es)
unfolding fill
fill-free e new es u = ground arith

-- A free slot is found whenever there is one.
pub fill-Filled :
    (es : List Entry) (new : Entry)
    → used_count es < length es
    → new.used ≡ true
    → lookup es new.seq ≡ none
    → (i : ℕ) × (es' : List Entry) × (fill es new ≡ some (i, es')) × Filled es new i es'
unfolding fill
fill-Filled [] new h n free = absurd (omega arith)
fill-Filled (e ∷ es) new h n free = elim (Bool-cases e.used) [
  | inl u ↦
      (let (i, es', eq, f) = fill-Filled es new (ground arith) n (ground arith) in
        (suc i, e ∷ es', fill-used e new es es' i u eq, Filled-cons e new es i es' u free f))
  | inr u ↦ (0, new ∷ es, fill-free e new es u, Filled-here e new es u n (ground arith))
]

-- What freeing the slot of one held packet does.
pub record Freed (es : List Entry) (seq : ℕ) (es' : List Entry) : Type 0 where
  pub same_length : length es' ≡ length es
  pub one_less : suc (used_count es') ≡ used_count es
  pub held : (s : ℕ) → lookup es' s ≡ (if seq == s then none else lookup es s)
  pub distinct : Distinct es'

pub set-Freed :
    (es : List Entry) (i : ℕ) (e : Entry)
    → get_elem? es i ≡ some e
    → e.used ≡ true
    → Distinct es
    → Freed es e.seq (set es i (release_entry e)) × (lookup es e.seq ≡ some e)
unfolding release_entry
set-Freed [] i e at u d = absurd (cc)
set-Freed (x ∷ es) zero e at u d = (
  record {
    same_length = refl;
    one_less = ground arith;
    held = λ s. ground (arith, d.0);
    distinct = (λ h. absurd (cc), d.1);
  },
  ground arith,
)
set-Freed (x ∷ es) (suc i) e at u d =
    let (f, found) = set-Freed es i e at u d.1 in
    (
      record {
        same_length = omega (arith, f.same_length);
        one_less = ground (arith, f.one_less);
        held = λ s. ground (arith, f.held s, d.0, found);
        distinct = (λ h. ground (arith, f.held x.seq, d.0 h), f.distinct);
      },
      ground (arith, found, d.0),
    )

-- Discarding frees exactly the packets behind the playhead, and counts them.
pub record Discarded (es : List Entry) (playhead : ℕ) (out : List Entry × ℕ) : Type 0 where
  pub same_length : length out.0 ≡ length es
  pub counted : used_count out.0 + out.1 ≡ used_count es
  pub held : (s : ℕ) → lookup out.0 s ≡ (if is_behind s playhead then none else lookup es s)
  pub distinct : Distinct es → Distinct out.0

pub discard-Discarded :
    (es : List Entry) (playhead : ℕ) → Discarded es playhead (discard es playhead)
unfolding discard
discard-Discarded [] playhead = record {
  same_length = refl;
  counted = omega arith;
  held = λ s. ground arith;
  distinct = λ _. tt;
}
discard-Discarded (e ∷ es) playhead =
    let d = discard-Discarded es playhead in
    record {
      same_length = ground (arith, d.same_length);
      counted = ground (arith, d.counted);
      held = λ s. ground (arith, d.held s, (==_iff e.seq s).0);
      distinct = λ h. ground (arith, d.held e.seq, h.0, d.distinct h.1);
    }

-- Clearing every slot leaves no packet.
pub record Cleared (es es' : List Entry) : Type 0 where
  pub same_length : length es' ≡ length es
  pub no_packet : used_count es' ≡ 0
  pub held : (s : ℕ) → lookup es' s ≡ none
  pub distinct : Distinct es'

pub map-Cleared : (es : List Entry) → Cleared es (map (λ _. empty_entry) es)
map-Cleared [] = record { same_length = refl; no_packet = refl; held = λ s. refl; distinct = tt }
map-Cleared (e ∷ es) =
    let c = map-Cleared es in
    record {
      same_length = ap suc c.same_length;
      no_packet = c.no_packet;
      held = c.held;
      distinct = (λ h. absurd (cc), c.distinct);
    }
