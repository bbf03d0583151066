-- ===== src/Output/Ring/Frames.antt =====
-- The PCM ring moves whole frames only, whatever order the calls come in.
use native.Mathlib.Nat.{mod-add-div, mul-mod_right, mod-add-mod, zero-mod}
use michi_music_stream.Prelude.{
  ltb-cases, ℕ, ◌+◌, ◌-◌, ◌/◌, ◌%◌, min, ◌≤◌, ◌≡◌, sym, ap, ◌∙◌, Bool, true, false, List, [], ◌∷◌,
  ◌++◌, arith, length, length-append, length-take, length-drop, take, ==-cases, inl, inr, All,
  subst,
}
use michi_music_stream.Output.Ring.{Ring, chunk_bytes}
use michi_music_stream.Output.Ring.Valid.{IsValid, contents}
use michi_music_stream.Output.Ring.Change.{length-contents}
use michi_music_stream.Output.Ring.Refine.{run_ring-run}
use michi_music_stream.Output.Ring.Queue
use michi_music_stream.Output.Ring.Queue.{
  Op, Reply, put, fetch, reset, set_barrier, room, run, run_ring, took, got, done,
}

-- Rounding down to whole frames.
round-mod : (n f : ℕ) → (n - n % f) % f ≡ 0
round-mod n f = ap (λ (t : ℕ). t % f) (omega (arith, mod-add-div n f)) ∙ mul-mod_right f (n / f)

-- What is left of whole frames when whole frames are taken.
sub-mod : (a b f : ℕ) → b ≤ a → a % f ≡ 0 → b % f ≡ 0 → (a - b) % f ≡ 0
sub-mod a b f h ha hb =
    ap (λ (t : ℕ). t % f) (omega arith)
    ∙ (ap (λ (t : ℕ). (t + (a - b)) % f) (sym hb)
        ∙ (mod-add-mod b f (a - b) ∙ (ap (λ (t : ℕ). t % f) (omega arith) ∙ ha)))

add-mod_zero : (a b f : ℕ) → a % f ≡ 0 → b % f ≡ 0 → (a + b) % f ≡ 0
add-mod_zero a b f ha hb =
    sym (mod-add-mod a f b)
    ∙ (ap (λ (t : ℕ). (t + b) % f) ha ∙ (ap (λ (t : ℕ). t % f) (omega arith) ∙ hb))

min-mod : (a b f : ℕ) → a % f ≡ 0 → b % f ≡ 0 → min a b % f ≡ 0
min-mod a b f ha hb = elim (ltb-cases a b) [
  | inl (t, p) ↦ ap (λ (k : ℕ). k % f) {y = a} (omega arith) ∙ ha
  | inr (t, p) ↦ ap (λ (k : ℕ). k % f) {y = b} (omega arith) ∙ hb
]

module _ (frame_bytes : ℕ) where
  -- A request for whole frames.
  abbrev pub AsksFrames : Op → Type 0
  AsksFrames (fetch len) = len % frame_bytes ≡ 0
  AsksFrames _ = Unit

  -- A count of bytes, or the bytes themselves, in whole frames.
  abbrev pub WholeFrames : Reply → Type 0
  WholeFrames (took n notify) = n % frame_bytes ≡ 0
  WholeFrames (got bytes) = length bytes % frame_bytes ≡ 0
  WholeFrames done = Unit

  room-mod : (size : ℕ) (q : List ℕ) (len : ℕ) → room frame_bytes size q len % frame_bytes ≡ 0
  unfolding room
  room-mod size q len = round-mod (min (min (size - length q) len) chunk_bytes) frame_bytes

  room-le : (size : ℕ) (q : List ℕ) (len : ℕ) → room frame_bytes size q len ≤ len
  unfolding room
  room-le size q len = omega arith

  write-WholeFrames :
      (barrier : Bool) (size : ℕ) (q xs : List ℕ)
      → length q % frame_bytes ≡ 0
      → let (n, notify, q') = Queue.write barrier frame_bytes size q xs (length xs) in
        (n % frame_bytes ≡ 0) × (length q' % frame_bytes ≡ 0)
  unfolding Queue.write
  write-WholeFrames true size q xs h = (zero-mod frame_bytes, h)
  write-WholeFrames false size q xs h =
      let n = room frame_bytes size q (length xs) in
      elim (==-cases n 0) [
        | inl (t, e) ↦ rw t (zero-mod frame_bytes, h)
        | inr (t, e) ↦ rw t (
          room-mod size q (length xs),
          ap (λ (k : ℕ). k % frame_bytes) (grown n (room-le size q (length xs)))
              ∙ add-mod_zero (length q) n frame_bytes h (room-mod size q (length xs)),
        )
      ]
    where
      grown : (n : ℕ) → n ≤ length xs → length (q ++ take n xs) ≡ length q + n
      grown n hn = omega (arith, length-append {0} q (take n xs), length-take {0} n xs)

  read-WholeFrames :
      (q : List ℕ) (len : ℕ)
      → chunk_bytes % frame_bytes ≡ 0
      → len % frame_bytes ≡ 0
      → length q % frame_bytes ≡ 0
      → let (out, q') = Queue.read q len in
        (length out % frame_bytes ≡ 0) × (length q' % frame_bytes ≡ 0)
  unfolding Queue.read
  read-WholeFrames q len hc hl h =
      let n = min (min (length q) len) chunk_bytes in
      let whole =
        min-mod (min (length q) len) chunk_bytes frame_bytes
          (min-mod (length q) len frame_bytes h hl) hc in
      (
        ap (λ (k : ℕ). k % frame_bytes) (omega (arith, length-take {0} n q)) ∙ whole,
        ap (λ (k : ℕ). k % frame_bytes) (length-drop n q)
            ∙ sub-mod (length q) n frame_bytes (omega arith) h whole,
      )

  run-WholeFrames :
      (barrier : Bool) (size : ℕ) (q : List ℕ) (ops : List Op)
      → chunk_bytes % frame_bytes ≡ 0
      → length q % frame_bytes ≡ 0
      → All AsksFrames ops
      → All WholeFrames (run frame_bytes size barrier q ops)
  unfolding run
  run-WholeFrames barrier size q [] hc h a = tt
  run-WholeFrames barrier size q (put xs ∷ ops) hc h a =
      let (n, q') = write-WholeFrames barrier size q xs h in
      (
        n,
        run-WholeFrames barrier size (Queue.write barrier frame_bytes size q xs (length xs)).2 ops
            hc q' a.1,
      )
  run-WholeFrames barrier size q (fetch len ∷ ops) hc h a =
      let (n, q') = read-WholeFrames q len hc a.0 h in
      (n, run-WholeFrames barrier size (Queue.read q len).1 ops hc q' a.1)
  run-WholeFrames barrier size q (reset ∷ ops) hc h a =
      (tt, run-WholeFrames barrier size [] ops hc (zero-mod frame_bytes) a.1)
  run-WholeFrames barrier size q (set_barrier b ∷ ops) hc h a =
      (tt, run-WholeFrames b size q ops hc h a.1)

  -- The consumer never gets part of a frame, and the producer never leaves one behind: over any
  -- sequence of calls on a valid ring that holds whole frames, when every read asks for whole
  -- frames and a frame's size divides the chunk's, each count written and each read answered is a
  -- whole number of frames.
  pub run_ring-WholeFrames :
      (barrier : Bool) {r : Ring} (ops : List Op)
      → IsValid r
      → chunk_bytes % frame_bytes ≡ 0
      → r.used % frame_bytes ≡ 0
      → All AsksFrames ops
      → All WholeFrames (run_ring frame_bytes barrier r ops)
  run_ring-WholeFrames barrier {r} ops v hc h a =
      subst (All WholeFrames) (sym (run_ring-run frame_bytes barrier ops v)) (
        run-WholeFrames barrier r.size (contents r) ops hc
          (ap (λ (k : ℕ). k % frame_bytes) (length-contents r) ∙ h) a)
