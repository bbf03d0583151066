-- ===== src/JitterBuffer/Oldest.antt =====
-- Which packet michi_jb_oldest hands to the playout: the one that is due first.
use michi_music_stream.Prelude.{
  ℕ, zero, suc, ◌≤◌, ◌≡◌, subst, true, false, Option, none, some, List, [], ◌∷◌, arith, get_elem?,
  All, inl, inr,
}
use michi_music_stream.Prelude.Int.{ℤ, pos, ltb_ℤ}
use michi_music_stream.Rtp.Distance.{distance, is_behind, rank}
use michi_music_stream.JitterBuffer.{Entry, Slot, Jb, slots, or_else, oldest}
use michi_music_stream.JitterBuffer.Slots.{used_count}
use michi_music_stream.JitterBuffer.Victim.{InArray}
use michi_music_stream.JitterBuffer.Ahead.{
  NoneNearer, Ahead, kept, found as ahead, nearest_ahead-Ahead,
}
use michi_music_stream.JitterBuffer.Behind.{NoLater, Latest, empty, found, latest_behind-Latest}

rank-le_ahead :
    (a b p : ℕ)
    → is_behind a p ≡ false
    → (is_behind b p ≡ false → ltb_ℤ (distance b p) (distance a p) ≡ false)
    → rank a p ≤ rank b p
unfolding distance
rank-le_ahead a b p ha h = ground arith

rank-le_latest :
    (a b p : ℕ)
    → ltb_ℤ (distance a p) (distance b p) ≡ false
    → (is_behind a p ≡ false → ltb_ℤ (distance a p) (pos 32767) ≡ false)
    → (is_behind b p ≡ false → ltb_ℤ (distance b p) (pos 32767) ≡ false)
    → rank a p ≤ rank b p
unfolding distance
rank-le_latest a b p h ha hb = ground arith

-- Every used entry is due no earlier than `seq`.
abbrev pub FirstDue : List Entry → ℕ → ℕ → Type 0
FirstDue es playhead seq =
    All (λ (e : Entry). e.used ≡ true → rank seq playhead ≤ rank e.seq playhead) es

FirstDue-ahead :
    (es : List Entry) (playhead seq : ℕ)
    → is_behind seq playhead ≡ false
    → NoneNearer es playhead (distance seq playhead)
    → FirstDue es playhead seq
FirstDue-ahead [] playhead seq b w = tt
FirstDue-ahead (e ∷ es) playhead seq b w =
    (λ u. rank-le_ahead seq e.seq playhead b (w.0 u), FirstDue-ahead es playhead seq b w.1)

FirstDue-latest :
    (es : List Entry) (playhead seq : ℕ)
    → (is_behind seq playhead ≡ false → ltb_ℤ (distance seq playhead) (pos 32767) ≡ false)
    → NoneNearer es playhead (pos 32767)
    → NoLater es playhead (distance seq playhead)
    → FirstDue es playhead seq
FirstDue-latest [] playhead seq b n w = tt
FirstDue-latest (e ∷ es) playhead seq b n w = (
  λ u. rank-le_latest seq e.seq playhead (w.0 u) b (n.0 u),
  FirstDue-latest es playhead seq b n.1 w.1,
)

NoneNearer-at :
    (es : List Entry) (playhead k : ℕ) (e : Entry) (d : ℤ)
    → NoneNearer es playhead d
    → get_elem? es k ≡ some e
    → e.used ≡ true
    → is_behind e.seq playhead ≡ false
    → ltb_ℤ (distance e.seq playhead) d ≡ false
NoneNearer-at [] playhead k e d n at u = absurd (cc)
NoneNearer-at (x ∷ es) playhead zero e d n at u =
    let same : x ≡ e = cc in
    subst
      (λ (y : Entry).
        y.used ≡ true
        → is_behind y.seq playhead ≡ false
        → ltb_ℤ (distance y.seq playhead) d ≡ false)
      same n.0 u
NoneNearer-at (x ∷ es) playhead (suc k) e d n at u = NoneNearer-at es playhead k e d n.1 at u

-- The answer of `michi_jb_oldest`: NULL where no slot is used, and else a used slot of the array.
abbrev pub Earliest : List Entry → ℕ → Option Slot → Type 0
Earliest es playhead none = used_count es ≡ 0
Earliest es playhead (some s) = InArray es 0 s × FirstDue es playhead s.entry.seq

oldest_slots :
    (es : List Entry) (playhead : ℕ) (a b : Option Slot)
    → Ahead es 0 playhead none (pos 32767) a
    → Latest es 0 playhead none b
    → Earliest es playhead (or_else a b)
unfolding or_else
oldest_slots es playhead a b (ahead s q at t g w) l =
    rw (q, or_else) (at, FirstDue-ahead es playhead s.entry.seq t w)
oldest_slots es playhead a b (kept q n) (empty q' _ z) = rw (q, q', or_else) z
oldest_slots es playhead a b (kept q n) (found s q' (inl at) w _) =
    rw (q, q', or_else)
      (
        at,
        FirstDue-latest es playhead s.entry.seq
            (NoneNearer-at es playhead at.place s.entry (pos 32767) n at.at at.used) n w,
      )
oldest_slots es playhead a b (kept q n) (found s q' (inr no_best) w _) = absurd (cc)

-- `michi_jb_oldest` returns NULL exactly for a buffer without packets, and otherwise a held packet
-- that is due first: the nearest one ahead of the playhead, or, with all of them behind, the latest.
pub oldest-Earliest : (jb : Jb) (playhead : ℕ) → Earliest (slots jb) playhead (oldest jb playhead)
unfolding oldest
oldest-Earliest jb playhead =
    oldest_slots (slots jb) playhead _ _
      (nearest_ahead-Ahead (slots jb) 0 playhead none (pos 32767))
      (latest_behind-Latest (slots jb) 0 playhead none)
