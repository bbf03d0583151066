-- ===== src/Output/Ring/Refine.antt =====
-- A valid ring behaves as the queue of the bytes that it holds.
use michi_music_stream.Prelude.{
  ℕ, ◌+◌, min, ◌≤◌, ◌≡◌, refl, ap, ap₂, ◌∙◌, Bool, true, false, List, [], ◌∷◌, ◌++◌, arith, length,
  take, drop, ==-cases, ◌==◌, inl, inr,
}
use michi_music_stream.Output.Ring.{
  Ring, chunk_bytes, admitted, append, remove, ring_write, ring_read, ring_reset,
}
use michi_music_stream.Output.Ring.Bytes.{drop-append_length, take-append_length}
use michi_music_stream.Output.Ring.Valid.{IsValid, contents, sub_size_exact}
use michi_music_stream.Output.Ring.Queue
use michi_music_stream.Output.Ring.Queue.{
  Op, Reply, put, fetch, reset, set_barrier, room, run, run_ring, took, got, done,
}
use michi_music_stream.Output.Ring.Change.{
  length-contents, append-IsValid, contents-append, remove-IsValid, contents-remove,
  length-copy_out, reset-IsValid, used-append, size-append,
}

==_add : (a n : ℕ) → ((a + n) == n) ≡ (a == 0)
==_add a n = ground arith

split_at :
    {q out rest : List ℕ} (n : ℕ)
    → q ≡ out ++ rest
    → length out ≡ n
    → ◌≡◌ {A = List ℕ × List ℕ} (out, rest) (take n q, drop n q)
split_at {q} {out} {rest} n e l =
    rw (e, ← l, take-append_length out rest, drop-append_length out rest) refl

module _ {r : Ring} (v : IsValid r) where
  admitted-eq-room :
      (frame_bytes len : ℕ) → admitted frame_bytes r len ≡ room frame_bytes r.size (contents r) len
  unfolding admitted room
  admitted-eq-room frame_bytes len =
      rw (length-contents r, sub_size_exact r.size r.used v.used_in v.small) refl

  admitted-fits :
      (frame_bytes len : ℕ)
      → (admitted frame_bytes r len ≤ len) × (r.used + admitted frame_bytes r len ≤ r.size)
  unfolding admitted
  admitted-fits frame_bytes len = omega (arith, sub_size_exact r.size r.used, v.used_in, v.small)

  -- `ring_write` answers as the queue, and leaves a valid ring that holds what the queue does.
  pub ring_write_lem :
      (barrier : Bool) (frame_bytes : ℕ) (bytes : List ℕ) (len : ℕ)
      → len ≤ length bytes
      → let (n, notify, r') = ring_write barrier frame_bytes r bytes len in
        IsValid r'
        × ((n, notify, contents r') ≡ Queue.write barrier frame_bytes r.size (contents r) bytes len)
        × (r'.size ≡ r.size)
  unfolding ring_write Queue.write
  ring_write_lem true frame_bytes bytes len h = (v, refl, refl)
  ring_write_lem false frame_bytes bytes len h =
      let n = admitted frame_bytes r len in
      let fits = admitted-fits frame_bytes len in
      rw (← admitted-eq-room frame_bytes len) elim (==-cases n 0) [
        | inl (t, e) ↦ rw t (v, refl, refl)
        | inr (t, e) ↦ rw t (
          append-IsValid v bytes n (omega (arith, fits)) fits.1,
          λ i. (n, notify_eq n fits.1 i, contents-append v bytes n (omega (arith, fits)) fits.1 i),
          size-append v bytes n,
        )
      ]
    where
      notify_eq :
          (n : ℕ)
          → r.used + n ≤ r.size
          → ((append r bytes n).used == n) ≡ (length (contents r) == 0)
      notify_eq n hn = rw (length-contents r, used-append v bytes n hn) (==_add r.used n)

  -- `ring_read` too.
  pub ring_read_lem :
      (len : ℕ)
      → let (out, r') = ring_read r len in
        IsValid r' × ((out, contents r') ≡ Queue.read (contents r) len) × (r'.size ≡ r.size)
  unfolding ring_read Queue.read remove
  ring_read_lem len =
      let n = min (min r.used len) chunk_bytes in
      (
        remove-IsValid v n (omega arith),
        rw (length-contents r)
            (split_at n (contents-remove v n (omega arith)) (length-copy_out v n (omega arith))),
        refl,
      )

-- No sequence of calls tells a valid ring from the queue of its contents.
pub run_ring-run :
    (frame_bytes : ℕ) (barrier : Bool) {r : Ring} (ops : List Op)
    → IsValid r
    → run_ring frame_bytes barrier r ops ≡ run frame_bytes r.size barrier (contents r) ops
unfolding run run_ring ring_reset
run_ring-run frame_bytes barrier [] v = refl
run_ring-run frame_bytes barrier {r} (put xs ∷ ops) v =
    let (w, e, k) = ring_write_lem v barrier frame_bytes xs (length xs) (omega arith) in
    ap₂ ◌∷◌ (ap (λ (t : ℕ × Bool × List ℕ). took t.0 t.1) e) (
      run_ring-run frame_bytes barrier ops w
      ∙ (ap
            (λ (s : ℕ).
              run frame_bytes s barrier
                (contents (ring_write barrier frame_bytes r xs (length xs)).2) ops)
            k
          ∙ ap (λ (t : ℕ × Bool × List ℕ). run frame_bytes r.size barrier t.2 ops) e))
run_ring-run frame_bytes barrier {r} (fetch len ∷ ops) v =
    let (w, e, k) = ring_read_lem v len in
    ap₂ ◌∷◌ (ap (λ (t : List ℕ × List ℕ). got t.0) e) (
      run_ring-run frame_bytes barrier ops w
      ∙ (ap (λ (s : ℕ). run frame_bytes s barrier (contents (ring_read r len).1) ops) k
          ∙ ap (λ (t : List ℕ × List ℕ). run frame_bytes r.size barrier t.1 ops) e))
run_ring-run frame_bytes barrier (reset ∷ ops) v =
    ap (◌∷◌ done) (run_ring-run frame_bytes barrier ops (reset-IsValid v))
run_ring-run frame_bytes barrier (set_barrier b ∷ ops) v =
    ap (◌∷◌ done) (run_ring-run frame_bytes b ops v)
