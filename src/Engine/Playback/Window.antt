-- ===== src/Engine/Playback/Window.antt =====
-- Playing a packet keeps the packets held by the audio engine in the window of the playhead, and
-- finds none that is stale.
use michi_music_stream.Prelude.{
  ℕ, ◌+◌, ◌%◌, ◌≤◌, ◌<◌, ◌≡◌, refl, sym, subst, Bool, true, false, Option, none, some, arith, ◌==◌,
  ==-cases, inl, inr, ◌∙◌, if-both, if-split, get_elem?, Bool-cases, ==_iff,
}
use michi_music_stream.Rtp.Distance.{distance, offset, is_behind, rank}
use michi_music_stream.JitterBuffer.{Entry, Slot, Jb, slots, oldest}
use michi_music_stream.JitterBuffer.Slots.{set-Freed}
use michi_music_stream.JitterBuffer.Valid.{IsValid, packet}
use michi_music_stream.JitterBuffer.Removal.{discard_stale_lem, release_lem}
use michi_music_stream.JitterBuffer.Oldest.{Earliest, oldest-Earliest}
use michi_music_stream.JitterBuffer.Holds.{lookup-All}
use michi_music_stream.Engine.{Metrics, Stream}
use michi_music_stream.Engine.Policy.Window.{InWindow}
use michi_music_stream.Engine.Playback.{
  Player, slot_pcm, write_silence, gap_samples, played, play, play_at_playhead, skip_gap,
  drain_oldest, drop_stale, session_drain,
}

pub not_behind :
    (n p max_packets : ℕ) → max_packets < 32768 → offset n p ≤ max_packets → is_behind n p ≡ false
unfolding distance
not_behind n p max_packets h k = ground arith

-- A playhead moved up to a packet that no other precedes, and past it.
offset_from :
    (max_packets n p x : ℕ)
    → max_packets < 32768
    → n < 65536
    → x < 65536
    → p < 65536
    → offset n p ≤ max_packets
    → offset x p ≤ max_packets
    → rank x p ≤ rank n p
    → offset n x ≤ max_packets
offset_from max_packets n p x hm hn hx hp on ox r = ground arith

offset_past :
    (max_packets n p : ℕ)
    → n < 65536
    → p < 65536
    → offset n p ≤ max_packets
    → (p ≡ n → ⊥)
    → offset n ((p + 1) % 65536) ≤ max_packets
offset_past max_packets n p hn hp o ne = ground arith

-- The slot that `michi_jb_oldest` hands out.
pub record Picked (jb : Jb) (playhead : ℕ) (x : Slot) : Type 0 where
  pub at : get_elem? (slots jb) x.index ≡ some x.entry
  pub used : x.entry.used ≡ true
  pub held : packet jb x.entry.seq ≡ some x.entry
  pub first :
      (n : ℕ) (e : Entry) → packet jb n ≡ some e → rank x.entry.seq playhead ≤ rank n playhead

pub oldest-Picked :
    (jb : Jb) (playhead : ℕ) (x : Slot)
    → IsValid jb
    → oldest jb playhead ≡ some x
    → Picked jb playhead x
oldest-Picked jb playhead x v h =
    let (a, due) = subst (Earliest (slots jb) playhead) h (oldest-Earliest jb playhead) in
    let at : get_elem? (slots jb) x.index ≡ some x.entry =
      subst (λ (k : ℕ). get_elem? (slots jb) k ≡ some x.entry) (omega (arith, a.index)) a.at in
    record {
      at = at;
      used = a.used;
      held = (set-Freed (slots jb) x.index x.entry at a.used v.distinct).1;
      first = λ n e q.
          let (r, u, same) =
            lookup-All (slots jb)
              (λ (y : Entry). y.used ≡ true → rank x.entry.seq playhead ≤ rank y.seq playhead) n e q
              due in
          subst (λ (k : ℕ). rank x.entry.seq playhead ≤ rank k playhead) same (r u);
    }

none-ne-some : {a : Entry} → none ≡ some a → ⊥
none-ne-some h = cc

module _ (max_packets : ℕ) (bound : max_packets < 32768) where
  -- Handing the packet at the playhead to the pipeline moves the window on by one.
  played-InWindow :
      (x : Slot) (s : Stream)
      → InWindow max_packets s
      → Picked s.jb s.playhead x
      → x.entry.seq ≡ s.playhead
      → InWindow max_packets (played x s)
  unfolding played
  played-InWindow x s v k here =
      let (w, held, _) = release_lem s.jb x.index x.entry v.valid k.at k.used in
      record {
        valid = w;
        ahead = λ n e q. elim (==-cases x.entry.seq n) [
          | inl (t, same) ↦ absurd (none-ne-some (sym (rw t at (held n)) ∙ q))
          | inr (t, other) ↦
              let (small, near) = v.ahead n e (sym (rw t at (held n)) ∙ q) in
              (
                small,
                rw here (
                    offset_past max_packets n s.playhead small v.playhead_in near
                      (λ same. other (here ∙ same))),
              )
        ];
        unseeded = λ h n. absurd (none-ne-some (sym (v.unseeded h x.entry.seq) ∙ k.held));
        playhead_in = omega arith;
        per_packet = v.per_packet;
      }

  -- Moving the playhead up to the oldest packet keeps the window.
  pub moved-InWindow :
      (x : Slot) (s : Stream)
      → InWindow max_packets s
      → Picked s.jb s.playhead x
      → InWindow max_packets (record s { playhead = x.entry.seq })
  moved-InWindow x s v k =
      let (small, near) = v.ahead x.entry.seq x.entry k.held in
      record {
        valid = v.valid;
        ahead = λ n e q.
            let (small', near') = v.ahead n e q in
            (
              small',
              offset_from max_packets n s.playhead x.entry.seq bound small' small v.playhead_in
                  near' near (k.first n e q),
            );
        unseeded = v.unseeded;
        playhead_in = small;
        per_packet = v.per_packet;
      }

  pub drop_stale-InWindow :
      (s : Stream) (m : Metrics) → InWindow max_packets s → InWindow max_packets (drop_stale s m).0
  unfolding drop_stale
  drop_stale-InWindow s m v =
      let (w, held, _) = discard_stale_lem s.jb s.playhead v.valid in
      record {
        valid = w;
        ahead = λ n e q. elim (Bool-cases (is_behind n s.playhead)) [
          | inl t ↦ absurd (none-ne-some (sym (rw t at (held n)) ∙ q))
          | inr t ↦ v.ahead n e (sym (rw t at (held n)) ∙ q)
        ];
        unseeded = λ h n.
            held n
            ∙ if-both (λ (o : Option Entry). o ≡ none) (is_behind n s.playhead) refl
                (v.unseeded h n);
        playhead_in = v.playhead_in;
        per_packet = v.per_packet;
      }

  module _ {W : Type 0} (p : Player W) where
    play-InWindow :
        (x : Slot) (s : Stream) (m : Metrics) (w : W)
        → InWindow max_packets s
        → Picked s.jb s.playhead x
        → x.entry.seq ≡ s.playhead
        → InWindow max_packets (play p x s m w).1
    unfolding play
    play-InWindow x s m w v k here =
        let (ok, w1) = p.output_write (slot_pcm s.jb x) w in
        if-both (λ (r : Bool × Stream × Metrics × W). InWindow max_packets r.1) ok
          (played-InWindow x s v k here) v

    play_at_playhead-InWindow :
        (o : Option Slot) (s : Stream) (m : Metrics) (w : W)
        → InWindow max_packets s
        → oldest s.jb s.playhead ≡ o
        → InWindow max_packets (play_at_playhead p o s m w).1
    unfolding play_at_playhead
    play_at_playhead-InWindow none s m w v e = v
    play_at_playhead-InWindow (some x) s m w v e =
        if-split (λ (r : Bool × Stream × Metrics × W). InWindow max_packets r.1)
          (x.entry.seq == s.playhead)
          (λ here.
            play-InWindow x s m w v (oldest-Picked s.jb s.playhead x v.valid e)
              ((==_iff _ _).0 here))
          (λ other. v)

    drain_oldest-InWindow :
        (o : Option Slot) (s : Stream) (m : Metrics) (w : W)
        → InWindow max_packets s
        → oldest s.jb s.playhead ≡ o
        → InWindow max_packets (drain_oldest p max_packets o s m w).1
    unfolding drain_oldest skip_gap
    drain_oldest-InWindow none s m w v e = v
    drain_oldest-InWindow (some x) s m w v e =
        let P = λ (r : Bool × Stream × Metrics × W). InWindow max_packets r.1 in
        let k = oldest-Picked s.jb s.playhead x v.valid e in
        if-split P (x.entry.seq == s.playhead)
          (λ here. play-InWindow x s m w v k ((==_iff _ _).0 here))
          (λ gap.
            if-both P (write_silence p s (gap_samples max_packets s x.entry) w).0
              (play_at_playhead-InWindow _ (record s { playhead = x.entry.seq }) _ _
                (moved-InWindow x s v k) refl)
              v)

    -- Whatever the pipeline answers, the packets held after `session_drain` lie in the window.
    pub session_drain-InWindow :
        (s : Stream) (m : Metrics) (w : W)
        → InWindow max_packets s
        → InWindow max_packets (session_drain p max_packets s m w).1
    unfolding session_drain
    session_drain-InWindow s m w v =
        drain_oldest-InWindow _ (drop_stale s m).0 (drop_stale s m).1 w (drop_stale-InWindow s m v)
          refl
