-- ===== src/Engine/Playback/Gap.antt =====
-- What a drain finds between the playhead and the next packet: nothing stale, and a gap that is
-- bounded by the window.
use native.Mathlib.Nat.{mul-le-mul_right, add-mul}
use michi_music_stream.Prelude.{
  ℕ, suc, ◌+◌, ◌-◌, ◌*◌, ◌%◌, ◌^◌, ◌≤◌, ◌<◌, ◌≡◌, refl, true, false, not, ◌&&◌, Option, none, some,
  List, [], ◌∷◌, arith, ltb, leb, ◌==◌, if-split, &&-both, All, get_elem?,
}
use michi_music_stream.Rtp.Distance.{offset, is_behind}
use michi_music_stream.JitterBuffer.{Entry, Slot, slots, oldest}
use michi_music_stream.JitterBuffer.Insert.{discard_stale, discard}
use michi_music_stream.JitterBuffer.Slots.{set-Freed}
use michi_music_stream.Engine.{Stream}
use michi_music_stream.Engine.Policy.Window.{InWindow}
use michi_music_stream.Engine.Playback.{gap_samples}
use michi_music_stream.Engine.Playback.Window.{not_behind, oldest-Picked}

get_elem-All {ℓ κ} :
    {A : Type ℓ} (Q : A → Type κ) (es : List A)
    → ((k : ℕ) (e : A) → get_elem? es k ≡ some e → Q e)
    → All Q es
get_elem-All Q [] h = tt
get_elem-All Q (e ∷ es) h = (h 0 e refl, get_elem-All Q es (λ k x at. h (suc k) x at))

discard_none :
    (es : List Entry) (playhead : ℕ)
    → All (λ (e : Entry). e.used ≡ true → is_behind e.seq playhead ≡ false) es
    → (discard es playhead).1 ≡ 0
unfolding discard
discard_none [] playhead a = refl
discard_none (e ∷ es) playhead a = ground (arith, a.0, discard_none es playhead a.1)

leb_le : (a b : ℕ) → leb a b ≡ true → a ≤ b
leb_le a b h = ground arith

-- Silence for a gap never exceeds the window, from either of its two estimates.
gap_samples-le :
    (max_packets : ℕ) (s : Stream) (next : Entry)
    → (max_packets + 1) * s.samples_per_packet < 2 ^ 32
    → offset next.seq s.playhead ≤ max_packets
    → gap_samples max_packets s next ≤ max_packets * s.samples_per_packet
unfolding gap_samples
gap_samples-le max_packets s next h o =
    let delta = (next.timestamp + 2 ^ 32 - s.last_played_ts) % 2 ^ 32 in
    let window = (max_packets + 1) * s.samples_per_packet in
    if-split (λ (k : ℕ). k ≤ max_packets * s.samples_per_packet)
      (not (s.last_played_ts == 0)
        && (ltb s.samples_per_packet delta && leb delta (window % 2 ^ 32)))
      (λ t. omega (
        arith,
        leb_le delta (window % 2 ^ 32) (&&-both _ _ (&&-both _ _ t).1).1,
        add-mul max_packets 1 s.samples_per_packet,
      ))
      (λ f. omega (arith, mul-le-mul_right s.samples_per_packet o))

module _ (max_packets : ℕ) (bound : max_packets < 32768) (s : Stream)
    (v : InWindow max_packets s) where
  no_stale : (discard_stale s.jb s.playhead).0 ≡ 0
  unfolding discard_stale
  no_stale = discard_none (slots s.jb) s.playhead (get_elem-All _ (slots s.jb) ahead)
    where
      ahead :
          (k : ℕ) (e : Entry)
          → get_elem? (slots s.jb) k ≡ some e
          → e.used ≡ true
          → is_behind e.seq s.playhead ≡ false
      ahead k e at u =
          not_behind e.seq s.playhead max_packets bound
            (v.ahead e.seq e (set-Freed (slots s.jb) k e at u v.valid.distinct).1).1

-- A packet that a drain picks is not behind the playhead, and the silence for the gap before it is
-- at most the window's length.
abbrev pub PickIsBounded : ℕ → Stream → Option Slot → Type 0
PickIsBounded max_packets s none = Unit {0}
PickIsBounded max_packets s (some x) =
    (is_behind x.entry.seq s.playhead ≡ false)
    × (gap_samples max_packets s x.entry ≤ max_packets * s.samples_per_packet)

-- Nor does the drain find a stale packet.
abbrev pub DrainIsBounded : ℕ → Stream → Type 0
DrainIsBounded max_packets s =
    ((discard_stale s.jb s.playhead).0 ≡ 0) × PickIsBounded max_packets s (oldest s.jb s.playhead)

pub InWindow-DrainIsBounded :
    (max_packets : ℕ) (s : Stream)
    → max_packets < 32768
    → InWindow max_packets s
    → DrainIsBounded max_packets s
InWindow-DrainIsBounded max_packets s bound v =
    (no_stale max_packets bound s v, pick (oldest s.jb s.playhead) refl)
  where
    pick : (o : Option Slot) → oldest s.jb s.playhead ≡ o → PickIsBounded max_packets s o
    pick none e = tt
    pick (some x) e =
        let k = oldest-Picked s.jb s.playhead x v.valid e in
        let near = (v.ahead x.entry.seq x.entry k.held).1 in
        (
          not_behind x.entry.seq s.playhead max_packets bound near,
          gap_samples-le max_packets s x.entry v.per_packet near,
        )
