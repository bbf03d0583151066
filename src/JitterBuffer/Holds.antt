-- ===== src/JitterBuffer/Holds.antt =====
-- Properties of all packets that a jitter buffer holds, and which operations of michi_jb.c keep them.
use michi_music_stream.Prelude.{
  ℕ, ◌≡◌, sym, ap, subst, Bool, true, ◌&&◌, &&-both, ==_iff, Option, none, some, List, [], ◌∷◌,
  ◌==◌, inl, inr, Bool-cases, ==-cases, ◌∙◌, All,
}
use michi_music_stream.Rtp.Distance.{is_behind}
use michi_music_stream.JitterBuffer.{Entry, Jb, InsertResult, slots, flush}
use michi_music_stream.JitterBuffer.Insert.{insert_packet, discard_stale}
use michi_music_stream.JitterBuffer.Slots.{lookup}
use michi_music_stream.JitterBuffer.Valid.{IsValid, packet}
use michi_music_stream.JitterBuffer.Arrivals.{Outcome, not-null}
use michi_music_stream.JitterBuffer.Inserts.{arrival, insert_packet-Outcome}
use michi_music_stream.JitterBuffer.Removal.{IsEmpty, flush-IsEmpty, discard_stale_lem}

-- Every sequence number that is held has a property.
abbrev pub Holds : (ℕ → Type 0) → Jb → Type 0
Holds P jb = (n : ℕ) (e : Entry) → packet jb n ≡ some e → P n

some_inj : {a b : Entry} → some a ≡ some b → a ≡ b
some_inj h = cc

none-ne-some : {a : Entry} → none ≡ some a → ⊥
none-ne-some h = cc

-- What is held under a number is a used entry with that number.
pub lookup-All :
    (es : List Entry) (Q : Entry → Type 0) (n : ℕ) (e : Entry)
    → lookup es n ≡ some e
    → All Q es
    → Q e × (e.used ≡ true) × (e.seq ≡ n)
lookup-All [] Q n e h a = absurd (cc)
lookup-All (x ∷ es) Q n e h a = elim (Bool-cases (x.used && x.seq == n)) [
  | inl t ↦
      let same : x ≡ e = some_inj (rw t at h) in
      let (u, q) = &&-both x.used (x.seq == n) t in
      (
        subst Q same a.0,
        sym (ap (λ (y : Entry). y.used) same) ∙ u,
        sym (ap (λ (y : Entry). y.seq) same) ∙ (==_iff x.seq n).0 q,
      )
  | inr t ↦ lookup-All es Q n e (rw t at h) a.1
]

pub flush-valid : (jb : Jb) → IsValid jb → IsEmpty (flush jb)
flush-valid jb v =
    flush-IsEmpty jb
      (not-null jb.entries jb.entries_static jb.capacity (unfold slots in v.sized) v.nonempty)
      v.sized v.nonempty v.pool_fits

Outcome-Holds :
    (P : ℕ → Type 0) (r : InsertResult) (jb : Jb) (playhead : ℕ) (new : Entry) (refused : Bool)
    (evicted : Option ℕ) (jb' : Jb)
    → IsValid jb
    → Holds P jb
    → P new.seq
    → Outcome jb playhead new refused r evicted jb'
    → IsValid jb' × Holds P jb'
Outcome-Holds P InsertResult.ok jb playhead new refused evicted jb' v h p (_, _, w, _, held) = (
  w,
  λ n e at. elim (==-cases new.seq n) [
    | inl (t, q) ↦ subst P q p
    | inr (t, q) ↦ h n e (sym (rw t at (held n)) ∙ at)
  ],
)
Outcome-Holds P InsertResult.duplicate jb playhead new refused evicted jb' v h p (_, same, _) =
    rw same (v, h)
Outcome-Holds P InsertResult.overrun_dropped jb playhead new refused evicted jb' v h p
      (_, same, _) =
    rw same (v, h)
Outcome-Holds P InsertResult.overrun_evicted jb playhead new refused evicted jb' v h p o =
    let (x, _, _, _, _, _, _, w, held) = o in
    (
      w,
      λ n e at. elim (==-cases new.seq n) [
        | inl (t, q) ↦ subst P q p
        | inr (t, q) ↦ elim (==-cases x n) [
          | inl (t', q') ↦ absurd (none-ne-some (sym (rw (t, t') at (held n)) ∙ at))
          | inr (t', q') ↦ h n e (sym (rw (t, t') at (held n)) ∙ at)
        ]
      ],
    )

-- An insertion keeps a property that its packet has.
pub insert_packet-Holds :
    (P : ℕ → Type 0) (jb : Jb) (playhead seq timestamp : ℕ) (payload : Option (List ℕ)) (len : ℕ)
    → IsValid jb
    → Holds P jb
    → P seq
    → let jb' = (insert_packet jb playhead seq timestamp payload len).2 in IsValid jb' × Holds P jb'
insert_packet-Holds P jb playhead seq timestamp payload len v h p =
    Outcome-Holds P _ jb playhead (arrival seq timestamp len) _ _ _ v h p
      (insert_packet-Outcome jb playhead seq timestamp payload len v)

-- So does discarding.
pub discard_stale-Holds :
    (P : ℕ → Type 0) (jb : Jb) (playhead : ℕ)
    → IsValid jb
    → Holds P jb
    → let jb' = (discard_stale jb playhead).1 in IsValid jb' × Holds P jb'
discard_stale-Holds P jb playhead v h =
    let (w, held, _) = discard_stale_lem jb playhead v in
    (
      w,
      λ n e at. elim (Bool-cases (is_behind n playhead)) [
        | inl t ↦ absurd (none-ne-some (sym (rw t at (held n)) ∙ at))
        | inr t ↦ h n e (sym (rw t at (held n)) ∙ at)
      ],
    )
