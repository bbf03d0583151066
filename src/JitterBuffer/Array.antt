-- ===== src/JitterBuffer/Array.antt =====
-- The array behind `jb->entries`: writing it back and reading it again.
use michi_music_stream.Prelude.{
  ℕ, zero, suc, ◌≡◌, refl, ap, List, [], ◌∷◌, ◌++◌, arith, length, take, drop,
}
use michi_music_stream.JitterBuffer.{
  Entry, Entries, null, internal, external, Jb, slots, slots_of, with_slots, write_slots,
}

take-append-drop {ℓ} :
    {A : Type ℓ} (n : ℕ) (es old : List A)
    → length es ≡ length (take n old)
    → take n (es ++ drop n old) ≡ es
take-append-drop zero [] old h = refl
take-append-drop zero (e ∷ es) old h = absurd (omega arith)
take-append-drop (suc n) [] [] h = refl
take-append-drop (suc n) [] (o ∷ old) h = absurd (omega arith)
take-append-drop (suc n) (e ∷ es) [] h = absurd (omega arith)
take-append-drop (suc n) (e ∷ es) (o ∷ old) h = ap (◌∷◌ e) (take-append-drop n es old (omega arith))

-- Writing the array keeps every other field.
pub record SameShape (jb jb' : Jb) : Type 0 where
  pub count : jb'.count ≡ jb.count
  pub capacity : jb'.capacity ≡ jb.capacity
  pub pool : jb'.pool ≡ jb.pool
  pub rx_buf_bytes : jb'.rx_buf_bytes ≡ jb.rx_buf_bytes

write_slots-SameShape :
    (en : Entries) (jb : Jb) (es : List Entry) → SameShape jb (write_slots en jb es)
unfolding write_slots
write_slots-SameShape null jb es = record {
  count = refl;
  capacity = refl;
  pool = refl;
  rx_buf_bytes = refl;
}
write_slots-SameShape internal jb es = record {
  count = refl;
  capacity = refl;
  pool = refl;
  rx_buf_bytes = refl;
}
write_slots-SameShape (external old) jb es = record {
  count = refl;
  capacity = refl;
  pool = refl;
  rx_buf_bytes = refl;
}

pub with_slots-SameShape : (jb : Jb) (es : List Entry) → SameShape jb (with_slots jb es)
unfolding with_slots
with_slots-SameShape jb es = write_slots-SameShape jb.entries jb es

slots-write_slots :
    (en : Entries) (jb : Jb) (es : List Entry)
    → jb.entries ≡ en
    → length es ≡ length (slots_of en jb.entries_static jb.capacity)
    → slots (write_slots en jb es) ≡ es
unfolding slots write_slots
slots-write_slots null jb [] e h = rw (e, slots_of)
slots-write_slots null jb (x ∷ es) e h = absurd (omega arith)
slots-write_slots internal jb es e h =
    rw (e, slots_of) (take-append-drop jb.capacity es jb.entries_static h)
slots-write_slots (external old) jb es e h = take-append-drop jb.capacity es old h

-- What is written is read back.
pub slots-with_slots :
    (jb : Jb) (es : List Entry) → length es ≡ length (slots jb) → slots (with_slots jb es) ≡ es
unfolding with_slots
slots-with_slots jb es h = slots-write_slots jb.entries jb es refl (unfold slots in h)
