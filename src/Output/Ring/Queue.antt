-- ===== src/Output/Ring/Queue.antt =====
-- What the PCM ring promises: a bounded first-in first-out queue of bytes that takes whole frames.
use michi_music_stream.Prelude.{
  ℕ, ◌-◌, ◌%◌, min, Bool, false, List, [], ◌∷◌, ◌++◌, length, take, drop, ◌==◌, if◌then◌else◌,
}
use michi_music_stream.Output.Ring.{Ring, chunk_bytes, ring_write, ring_read, ring_reset}

-- How many of `len` bytes the queue has room for, in whole frames and at most a chunk.
unfoldable pub room : ℕ → ℕ → List ℕ → ℕ → ℕ
room frame_bytes size q len =
    let n = min (min (size - length q) len) chunk_bytes in n - n % frame_bytes

unfoldable pub write : Bool → ℕ → ℕ → List ℕ → List ℕ → ℕ → ℕ × Bool × List ℕ
write barrier frame_bytes size q bytes len =
    let n = room frame_bytes size q len in
    if barrier
    then (0, false, q)
    else if n == 0
    then (0, false, q)
    else (n, length q == 0, q ++ take n bytes)

unfoldable pub read : List ℕ → ℕ → List ℕ × List ℕ
read q len = let n = min (min (length q) len) chunk_bytes in (take n q, drop n q)

-- What the producer, the consumer and the control commands do to the ring.
pub data Op : Type 0 where
  put : List ℕ → Op
  fetch : ℕ → Op
  reset : Op
  set_barrier : Bool → Op

-- What a call answers.
pub data Reply : Type 0 where
  took : ℕ → Bool → Reply
  got : List ℕ → Reply
  done : Reply

-- The queue's answers to a sequence of calls.
unfoldable pub run : ℕ → ℕ → Bool → List ℕ → List Op → List Reply
unfolding write read
run frame_bytes size barrier q [] = []
run frame_bytes size barrier q (put xs ∷ ops) =
    let (n, notify, q') = write barrier frame_bytes size q xs (length xs) in
    took n notify ∷ run frame_bytes size barrier q' ops
run frame_bytes size barrier q (fetch len ∷ ops) =
    let (out, q') = read q len in got out ∷ run frame_bytes size barrier q' ops
run frame_bytes size barrier q (reset ∷ ops) = done ∷ run frame_bytes size barrier [] ops
run frame_bytes size barrier q (set_barrier b ∷ ops) = done ∷ run frame_bytes size b q ops

-- The ring's.
unfoldable pub run_ring : ℕ → Bool → Ring → List Op → List Reply
run_ring frame_bytes barrier r [] = []
run_ring frame_bytes barrier r (put xs ∷ ops) =
    let (n, notify, r') = ring_write barrier frame_bytes r xs (length xs) in
    took n notify ∷ run_ring frame_bytes barrier r' ops
run_ring frame_bytes barrier r (fetch len ∷ ops) =
    let (out, r') = ring_read r len in got out ∷ run_ring frame_bytes barrier r' ops
run_ring frame_bytes barrier r (reset ∷ ops) =
    done ∷ run_ring frame_bytes barrier (ring_reset r) ops
run_ring frame_bytes barrier r (set_barrier b ∷ ops) = done ∷ run_ring frame_bytes b r ops
