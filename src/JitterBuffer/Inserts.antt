-- ===== src/JitterBuffer/Inserts.antt =====
-- michi_jb_insert_packet as an operation on the map from sequence numbers to packets.
use michi_music_stream.Prelude.{
  ℕ, ◌<◌, ◌≡◌, refl, sym, Bool, true, false, ◌||◌, Option, some, List, arith, inl, inr, Bool-cases,
  ◌∙◌,
}
use michi_music_stream.Prelude.Int.{pos}
use michi_music_stream.Rtp.Distance.{distance, is_behind}
use michi_music_stream.JitterBuffer.{Entry, Jb, InsertResult, is_some, find}
use michi_music_stream.JitterBuffer.Insert.{rejects_payload, insert_packet}
use michi_music_stream.JitterBuffer.Valid.{IsValid, packet}
use michi_music_stream.JitterBuffer.Arrivals.{
  Outcome, find-lookup, or_static-valid, insert_new-Outcome, none_of_is_some,
}

-- The packet that `michi_jb_insert_packet` is asked to hold.
abbrev pub arrival : ℕ → ℕ → ℕ → Entry
arrival seq timestamp len = record { seq = seq; timestamp = timestamp; len = len; used = true }

-- Inserting into a valid buffer has one of four outcomes. OK: the packet was not held, is held now,
-- and nothing else changed. DUPLICATE: it was held, and nothing changed. DROPPED: nothing changed,
-- and either the payload was refused or the packet lies behind the playhead, or the buffer is full
-- and every packet in it lies ahead of the playhead and no farther than the arrival. EVICTED: the
-- buffer was full, the one packet reported as evicted is gone and the arrival is held, where the
-- evicted one lay behind the playhead, or lay farthest ahead and farther than the arrival with
-- nothing behind. The buffer stays valid on each.
pub insert_packet-Outcome :
    (jb : Jb) (playhead seq timestamp : ℕ) (payload : Option (List ℕ)) (len : ℕ)
    → IsValid jb
    → let r = insert_packet jb playhead seq timestamp payload len in
      Outcome jb playhead
        (arrival seq timestamp len)
        (rejects_payload jb.pool jb.rx_buf_bytes payload len || is_behind seq playhead)
        r.0
        r.1
        r.2
unfolding insert_packet
insert_packet-Outcome jb playhead seq timestamp payload len v =
    rw (or_static-valid jb v)
      (elim (Bool-cases
        (rejects_payload jb.pool jb.rx_buf_bytes payload len || is_behind seq playhead)) [
          | inl r ↦ rw r (refl, refl, inl refl)
          | inr r ↦ rw r (elim (Bool-cases (is_some (find jb seq))) [
            | inl found ↦ rw found (refl, refl, sym (find-lookup jb seq) ∙ found)
            | inr new ↦ rw new (
                insert_new-Outcome jb playhead (arrival seq timestamp len) payload v refl
                  (none_of_is_some _ (sym (find-lookup jb seq) ∙ new)))
          ])
        ])

behind_self : (p : ℕ) → p < 65536 → distance p p ≡ pos 0
unfolding distance
behind_self p h = ground arith

Outcome-playhead :
    (r : InsertResult) (jb : Jb) (playhead : ℕ) (new : Entry) (refused : Bool) (evicted : Option ℕ)
    (jb' : Jb) (e : Entry)
    → distance playhead playhead ≡ pos 0
    → (refused ≡ false → is_behind new.seq playhead ≡ false)
    → packet jb playhead ≡ some e
    → Outcome jb playhead new refused r evicted jb'
    → packet jb' playhead ≡ some e
Outcome-playhead InsertResult.ok jb playhead new refused evicted jb' e here ahead due o =
    let (_, _, _, free, held) = o in held playhead ∙ ground (arith, free, due)
Outcome-playhead InsertResult.duplicate jb playhead new refused evicted jb' e here ahead due o =
    rw o.1 due
Outcome-playhead InsertResult.overrun_dropped jb playhead new refused evicted jb' e here ahead due
      o =
    rw o.1 due
Outcome-playhead InsertResult.overrun_evicted jb playhead new refused evicted jb' e here ahead due
      o =
    let (w, _, r, _, _, free, why, _, held) = o in
    held playhead ∙ ground (arith, free, due, why, ahead r, here)

-- No insertion takes away the packet that is due at the playhead.
pub packet-insert_packet_playhead :
    (jb : Jb) (playhead seq timestamp : ℕ) (payload : Option (List ℕ)) (len : ℕ) (e : Entry)
    → IsValid jb
    → playhead < 65536
    → packet jb playhead ≡ some e
    → packet (insert_packet jb playhead seq timestamp payload len).2 playhead ≡ some e
packet-insert_packet_playhead jb playhead seq timestamp payload len e v p due =
    Outcome-playhead _ jb playhead (arrival seq timestamp len) _ _ _ e (behind_self playhead p)
      (λ h. ground arith) due (insert_packet-Outcome jb playhead seq timestamp payload len v)
