-- ===== src/Output/Ring.antt =====
-- The PCM ring of michi_audio_output.c: `ring_write`, `ring_read` and the reset that start, flush
-- and the quiesce command make. The write barrier and the frame size are statics of the file and
-- enter as arguments; both functions run inside one critical section of `s_ring_lock`.
pub mod Bytes
pub mod Window
pub mod Valid
pub mod Change
pub mod Queue
pub mod Refine
pub mod Frames
use Prim.Native.Nat.{bit_and}
use michi_music_stream.Prelude.{
  ℕ, ◌+◌, ◌-◌, ◌%◌, ◌^◌, min, Bool, true, false, List, [], ◌++◌, take, drop, ltb, ◌==◌,
  if◌then◌else◌,
}
use michi_music_stream.JitterBuffer.Insert.{blit}

-- `ring_t`. The buffer pointer is the list of the bytes it points to.
pub record Ring : Type 0 where
  pub buf : List ℕ
  pub size : ℕ
  pub head : ℕ
  pub tail : ℕ
  pub used : ℕ

-- MICHI_AUDIO_CHUNK_BYTES.
abbrev pub chunk_bytes : ℕ
chunk_bytes = 4092

-- Arithmetic on `size_t`, which has 32 bits on the target.
abbrev pub add_size : ℕ → ℕ → ℕ
add_size a b = (a + b) % 2 ^ 32

abbrev pub sub_size : ℕ → ℕ → ℕ
sub_size a b = (a + 2 ^ 32 - b) % 2 ^ 32

-- An index moved on by `n` and masked.
unfoldable pub advance_index : Ring → ℕ → ℕ → ℕ
advance_index r i n = bit_and (add_size i n) (sub_size r.size 1)

-- The bytes that `ring_write` takes: what is free, at most a chunk, in whole frames.
unfoldable pub admitted : ℕ → Ring → ℕ → ℕ
admitted frame_bytes r len =
    let free = min (min (sub_size r.size r.used) len) chunk_bytes in free - free % frame_bytes

-- The two copies of `ring_write`, up to the end of the buffer and on from its start.
unfoldable pub copy_in : Ring → List ℕ → ℕ → List ℕ
copy_in r bytes free =
    let n = min free (sub_size r.size r.head) in
    let buf = blit r.buf r.head (take n bytes) in
    if ltb n free then blit buf 0 (take (free - n) (drop n bytes)) else buf

-- The ring with `free` more bytes.
unfoldable pub append : Ring → List ℕ → ℕ → Ring
append r bytes free = record r {
  buf = copy_in r bytes free;
  head = advance_index r r.head free;
  used = add_size r.used free;
}

-- The count written, whether the consumer is notified, and the ring after it.
unfoldable pub ring_write : Bool → ℕ → Ring → List ℕ → ℕ → ℕ × Bool × Ring
ring_write barrier frame_bytes r bytes len =
    let free = admitted frame_bytes r len in
    let r' = append r bytes free in
    if barrier
    then (0, false, r)
    else if free == 0
    then (0, false, r)
    else (free, r'.used == free, r')

-- The two copies of `ring_read`.
unfoldable pub copy_out : Ring → ℕ → List ℕ
copy_out r used =
    let n = min used (sub_size r.size r.tail) in
    let first = take n (drop r.tail r.buf) in
    if ltb n used then first ++ take (used - n) r.buf else first

-- The ring without its `used` oldest bytes.
unfoldable pub remove : Ring → ℕ → Ring
remove r used = record r { tail = advance_index r r.tail used; used = sub_size r.used used }

-- The bytes that go through `out`, and the ring after it; the count is their number.
unfoldable pub ring_read : Ring → ℕ → List ℕ × Ring
ring_read r len = let used = min (min r.used len) chunk_bytes in (copy_out r used, remove r used)

-- Start, flush and quiesce empty the ring so.
unfoldable pub ring_reset : Ring → Ring
ring_reset r = record r { head = 0; tail = 0; used = 0 }
