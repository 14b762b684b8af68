-- ===== src/Transport/ShmRing/Writing.antt =====
-- shm_ring.h: what a reader relies on while the writer moves.
use mini_middleware.Prelude.{
  subst, inl, inr, ℕ, ◌≤◌, ◌<◌, ◌≡◌, refl, ap, false, Bytes, arith, length, ltb, if◌then◌else◌,
  ◌==◌, Bool-cases,
}
use mini_middleware.Transport.ShmRing.{
  Slot, System, WriterPc, resting, claimed, marked, copying, update, slot, slot_index, writer_step,
  writer_move,
}
use mini_middleware.Transport.ShmRing.Content.{published_of, published, WriterHolds, Inv, update_ne}

-- The slot of position `p` holds the whole entry of that position.
abbrev pub IsFresh : System → ℕ → Type 0
IsFresh s p = ((slot s.ring p).writing ≡ false) × ((slot s.ring p).pos ≡ p)

-- A step of the writer: what is published stays as it was, and no entry becomes whole again.
pub record Extends (s t : System) : Type 0 where
  pub grows : published s ≤ published t
  pub logs : (p : ℕ) → p < published s → t.log p ≡ s.log p
  pub fresh : (p : ℕ) → p < published s → IsFresh t p → IsFresh s p

fresh_update :
    (f : ℕ → Slot) (k : ℕ) (sl : Slot) (j p : ℕ)
    → ((update f k sl j).writing ≡ false) × ((update f k sl j).pos ≡ p)
    → ¬ ((sl.writing ≡ false) × (sl.pos ≡ p))
    → ((f j).writing ≡ false) × ((f j).pos ≡ p)
fresh_update f k sl j p h no_self = elim (Bool-cases (k == j)) [
  | inl e ↦ absurd (
      no_self (
        subst (λ (c : Slot). (c.writing ≡ false) × (c.pos ≡ p)) (ap (λ c. if c then sl else f j) e)
          h))
  | inr e ↦
      subst (λ (c : Slot). (c.writing ≡ false) × (c.pos ≡ p)) (ap (λ c. if c then sl else f j) e) h
]

writer_move-Extends :
    (s : System) (msg : Bytes) (pc : WriterPc)
    → s.writer ≡ pc
    → WriterHolds s pc
    → Extends s (writer_move s msg pc)
unfolding writer_move
writer_move-Extends s msg resting e w =
    let at : published s ≡ s.ring.write_seq = ap (λ p. published_of p s.ring.write_seq) e in
    elim (Bool-cases (ltb s.ring.slot_size (length msg))) [
      | inl big ↦
          simp big (record { grows = omega arith; logs = λ p lt. refl; fresh = λ p lt f. f })
      | inr fits ↦ simp fits (record {
        grows = omega (arith, at);
        logs = λ p lt. update_ne s.log s.ring.write_seq p msg (omega (arith, at));
        fresh = λ p lt f. f;
      })
    ]
writer_move-Extends s msg (claimed pos m) e w =
    let at : published s ≡ pos = ap (λ p. published_of p s.ring.write_seq) e in
    record {
      grows = omega (arith, at);
      logs = λ p lt. refl;
      fresh = λ p lt f.
          fresh_update s.ring.slots (slot_index s.ring.slot_count pos) _
            (slot_index s.ring.slot_count p) p f (λ g. cc (g.0));
    }
writer_move-Extends s msg (marked pos m) e w =
    let at : published s ≡ pos = ap (λ p. published_of p s.ring.write_seq) e in
    record {
      grows = omega (arith, at);
      logs = λ p lt. refl;
      fresh = λ p lt f.
          fresh_update s.ring.slots (slot_index s.ring.slot_count pos) _
            (slot_index s.ring.slot_count p) p f (λ g. cc (g.0, w.2));
    }
writer_move-Extends s msg (copying pos m i) e w =
    let at : published s ≡ pos = ap (λ p. published_of p s.ring.write_seq) e in
    elim (Bool-cases (ltb i (length m))) [
      | inl more ↦ simp more (record {
        grows = omega (arith, at);
        logs = λ p lt. refl;
        fresh = λ p lt f.
            fresh_update s.ring.slots (slot_index s.ring.slot_count pos) _
              (slot_index s.ring.slot_count p) p f (λ g. cc (g.0, w.2));
      })
      | inr done ↦ simp done (record {
        grows = omega (arith, at, w.0);
        logs = λ p lt. refl;
        fresh = λ p lt f.
            fresh_update s.ring.slots (slot_index s.ring.slot_count pos) _
              (slot_index s.ring.slot_count p) p f (λ g. omega (arith, g.1, at, lt));
      })
    ]

pub writer_step-Extends : (s : System) (msg : Bytes) → Inv s → Extends s (writer_step s msg)
unfolding writer_step
writer_step-Extends s msg v = writer_move-Extends s msg s.writer refl v.writer_holds

-- The writer leaves the reader's own variables alone.
writer_move_private :
    (s : System) (msg : Bytes) (pc : WriterPc)
    → ((writer_move s msg pc).reader ≡ s.reader)
      × ((writer_move s msg pc).next ≡ s.next)
      × ((writer_move s msg pc).dropped ≡ s.dropped)
      × ((writer_move s msg pc).delivered ≡ s.delivered)
unfolding writer_move
writer_move_private s msg resting = ground arith
writer_move_private s msg (claimed pos m) = (refl, refl, refl, refl)
writer_move_private s msg (marked pos m) = (refl, refl, refl, refl)
writer_move_private s msg (copying pos m i) = ground arith

pub writer_step_private :
    (s : System) (msg : Bytes)
    → ((writer_step s msg).reader ≡ s.reader)
      × ((writer_step s msg).next ≡ s.next)
      × ((writer_step s msg).dropped ≡ s.dropped)
      × ((writer_step s msg).delivered ≡ s.delivered)
unfolding writer_step
writer_step_private s msg = writer_move_private s msg s.writer
