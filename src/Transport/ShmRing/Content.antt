-- ===== src/Transport/ShmRing/Content.antt =====
-- shm_ring.h: what a slot holds while its sequence number says that it is whole.
use native.Mathlib.Decide.{ℕ_discrete}
use mini_middleware.Prelude.{
  subst, inl, inr, ℕ, ◌+◌, ◌≤◌, ◌<◌, ◌≡◌, refl, sym, ◌∙◌, ap, ◌≢◌, true, false, Bytes, arith,
  length, get_or, ltb, if◌then◌else◌, ◌==◌, Bool-cases,
}
use mini_middleware.Transport.ShmRing.{
  Slot, System, WriterPc, resting, claimed, marked, copying, update, slot, slot_index, set_slot,
  writer_step, writer_move,
}

-- The positions below this one have been written whole.
abbrev pub published_of : WriterPc → ℕ → ℕ
published_of resting w = w
published_of (claimed pos m) w = pos
published_of (marked pos m) w = pos
published_of (copying pos m i) w = pos

abbrev pub published : System → ℕ
published s = published_of s.writer s.ring.write_seq

-- A slot holds a message, byte for byte.
pub record Holds (sl : Slot) (m : Bytes) : Type 0 where
  pub length_ : sl.len ≡ length m
  pub bytes : (j : ℕ) → j < length m → sl.cells j ≡ get_or m j 0

-- A slot without the writing bit holds the message of its position, one below `b`.
abbrev pub SlotOk : ℕ → (ℕ → Bytes) → Slot → Type 0
SlotOk b log sl = sl.writing ≡ false → (sl.pos < b) × Holds sl (log sl.pos)

abbrev pub SlotsOk : System → Type 0
SlotsOk s = (i : ℕ) → SlotOk (published s) s.log (s.ring.slots i)

-- What the writer has done of the message it is at.
abbrev pub WriterHolds : System → WriterPc → Type 0
WriterHolds s resting = Unit
WriterHolds s (claimed pos m) = (s.ring.write_seq ≡ pos + 1) × (s.log pos ≡ m)
WriterHolds s (marked pos m) =
    (s.ring.write_seq ≡ pos + 1) × (s.log pos ≡ m) × ((slot s.ring pos).writing ≡ true)
WriterHolds s (copying pos m i) =
    (s.ring.write_seq ≡ pos + 1)
    × (s.log pos ≡ m)
    × ((slot s.ring pos).writing ≡ true)
    × ((slot s.ring pos).len ≡ length m)
    × (i ≤ length m)
    × ((j : ℕ) → j < i → (slot s.ring pos).cells j ≡ get_or m j 0)

pub record Inv (s : System) : Type 0 where
  pub slots_ok : SlotsOk s
  pub writer_holds : WriterHolds s s.writer

pub update_self {ℓ} : {A : Type ℓ} (f : ℕ → A) (k : ℕ) (a : A) → update f k a k ≡ a
update_self f k a = ground arith

pub update_ne {ℓ} : {A : Type ℓ} (f : ℕ → A) (k j : ℕ) (a : A) → k ≢ j → update f k a j ≡ f j
update_ne f k j a ne = ground arith

-- A write to one slot, and a larger log.
SlotOk-update :
    (b : ℕ) (log : ℕ → Bytes) (f : ℕ → Slot) (k : ℕ) (sl : Slot)
    → ((i : ℕ) → SlotOk b log (f i))
    → SlotOk b log sl
    → (i : ℕ) → SlotOk b log (update f k sl i)
SlotOk-update b log f k sl h g i = elim (Bool-cases (k == i)) [
  | inl e ↦ subst (SlotOk b log) (ap (λ c. if c then sl else f i) (sym e)) g
  | inr e ↦ subst (SlotOk b log) (ap (λ c. if c then sl else f i) (sym e)) (h i)
]

SlotOk-grow :
    (b b' : ℕ) (log log' : ℕ → Bytes) (sl : Slot)
    → b ≤ b'
    → ((p : ℕ) → p < b → log' p ≡ log p)
    → SlotOk b log sl
    → SlotOk b' log' sl
SlotOk-grow b b' log log' sl le same h f =
    (omega (arith, (h f).0), subst (Holds sl) (sym (same sl.pos (h f).0)) (h f).1)

-- A slot that is being written says nothing.
SlotOk-writing : (b : ℕ) (log : ℕ → Bytes) (sl : Slot) → sl.writing ≡ true → SlotOk b log sl
SlotOk-writing b log sl w f = cc

claim-Inv :
    (s : System) (msg : Bytes)
    → s.writer ≡ resting
    → SlotsOk s
    → Inv (record s {
      ring = record (s.ring) { write_seq = s.ring.write_seq + 1 };
      writer = claimed s.ring.write_seq msg;
      log = update s.log s.ring.write_seq msg;
    })
claim-Inv s msg e h =
    let pub_ : published s ≡ s.ring.write_seq = ap (λ w. published_of w s.ring.write_seq) e in
    record {
      slots_ok = λ i.
          SlotOk-grow (published s) s.ring.write_seq s.log (update s.log s.ring.write_seq msg)
            (s.ring.slots i) (omega (arith, pub_))
            (λ p lt. update_ne s.log s.ring.write_seq p msg (omega (arith, pub_))) (h i);
      writer_holds = (refl, update_self s.log s.ring.write_seq msg);
    }

SlotsOk-at :
    (s : System) {pc : WriterPc}
    → s.writer ≡ pc
    → SlotsOk s
    → (i : ℕ) → SlotOk (published_of pc s.ring.write_seq) s.log (s.ring.slots i)
SlotsOk-at s e h i =
    subst (λ b. SlotOk b s.log (s.ring.slots i)) (ap (λ p. published_of p s.ring.write_seq) e) (h i)

copy-Inv :
    (s : System) (pos : ℕ) (m : Bytes) (i : ℕ)
    → i < length m
    → s.writer ≡ copying pos m i
    → SlotsOk s
    → WriterHolds s (copying pos m i)
    → Inv (record s {
      ring =
          set_slot s.ring pos
            (record (slot s.ring pos) { cells = update (slot s.ring pos).cells i (get_or m i 0) });
      writer = copying pos m (i + 1);
    })
copy-Inv s pos m i lt e h w =
    let k = slot_index s.ring.slot_count pos in
    let cells' : ℕ → ℕ = update (slot s.ring pos).cells i (get_or m i 0) in
    let sl : Slot = record (slot s.ring pos) { cells = cells' } in
    let self = update_self s.ring.slots k sl in
    record {
      slots_ok =
          SlotOk-update pos s.log s.ring.slots k sl (SlotsOk-at s e h)
            (SlotOk-writing pos s.log sl w.2);
      writer_holds = (
        w.0,
        w.1,
        ap (λ (t : Slot). t.writing) self ∙ w.2,
        ap (λ (t : Slot). t.len) self ∙ w.3,
        omega arith,
        λ j before. ap (λ (t : Slot). t.cells j) self ∙ elim (ℕ_discrete i j) [
          | yes same ↦
              subst (λ c. cells' c ≡ get_or m c 0) same
                (update_self (slot s.ring pos).cells i (get_or m i 0))
          | no ne ↦ update_ne (slot s.ring pos).cells i j (get_or m i 0) ne ∙ w.5 j (omega arith)
        ],
      );
    }

publish-Inv :
    (s : System) (pos : ℕ) (m : Bytes) (i : ℕ)
    → length m ≤ i
    → s.writer ≡ copying pos m i
    → SlotsOk s
    → WriterHolds s (copying pos m i)
    → Inv (record s {
      ring = set_slot s.ring pos (record (slot s.ring pos) { writing = false; pos = pos });
      writer = resting;
    })
publish-Inv s pos m i ge e h w =
    let k = slot_index s.ring.slot_count pos in
    let sl : Slot = record (slot s.ring pos) { writing = false; pos = pos } in
    record {
      slots_ok =
          SlotOk-update s.ring.write_seq s.log s.ring.slots k sl
            (λ j.
              SlotOk-grow pos s.ring.write_seq s.log s.log (s.ring.slots j) (omega arith)
                (λ p lt. refl) (SlotsOk-at s e h j))
            (λ f. (
              omega arith,
              record {
                length_ = w.3 ∙ ap length (sym w.1);
                bytes =
                    λ j lt. w.5 j (omega (arith, ap length w.1)) ∙ ap (λ l. get_or l j 0) (sym w.1);
              },
            ));
      writer_holds = tt;
    }

-- A step of the writer keeps the invariant.
writer_move-Inv :
    (s : System) (msg : Bytes) (pc : WriterPc)
    → s.writer ≡ pc
    → SlotsOk s
    → WriterHolds s pc
    → Inv (writer_move s msg pc)
unfolding writer_move
writer_move-Inv s msg resting e h w = elim (Bool-cases (ltb s.ring.slot_size (length msg))) [
  | inl big ↦ simp big (record { slots_ok = h; writer_holds = subst (WriterHolds s) (sym e) w })
  | inr fits ↦ simp fits (claim-Inv s msg e h)
]
writer_move-Inv s msg (claimed pos m) e h w =
    let k = slot_index s.ring.slot_count pos in
    let sl : Slot = record (slot s.ring pos) { writing = true; pos = pos } in
    record {
      slots_ok =
          SlotOk-update pos s.log s.ring.slots k sl (SlotsOk-at s e h)
            (SlotOk-writing pos s.log sl refl);
      writer_holds = (w.0, w.1, ap (λ (t : Slot). t.writing) (update_self s.ring.slots k sl));
    }
writer_move-Inv s msg (marked pos m) e h w =
    let k = slot_index s.ring.slot_count pos in
    let sl : Slot = record (slot s.ring pos) { len = length m } in
    let self = update_self s.ring.slots k sl in
    record {
      slots_ok =
          SlotOk-update pos s.log s.ring.slots k sl (SlotsOk-at s e h)
            (SlotOk-writing pos s.log sl w.2);
      writer_holds = (
        w.0,
        w.1,
        ap (λ (t : Slot). t.writing) self ∙ w.2,
        ap (λ (t : Slot). t.len) self,
        omega arith,
        λ j lt. absurd (omega arith),
      );
    }
writer_move-Inv s msg (copying pos m i) e h w = elim (Bool-cases (ltb i (length m))) [
  | inl more ↦ simp more (copy-Inv s pos m i (ground arith) e h w)
  | inr done ↦ simp done (publish-Inv s pos m i (ground arith) e h w)
]

pub writer_step-Inv : (s : System) (msg : Bytes) → Inv s → Inv (writer_step s msg)
unfolding writer_step
writer_step-Inv s msg v = writer_move-Inv s msg s.writer refl v.slots_ok v.writer_holds
