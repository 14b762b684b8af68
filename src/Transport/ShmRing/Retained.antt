-- ===== src/Transport/ShmRing/Retained.antt =====
-- shm_ring.h: the last entries stay in the ring.
use mini_middleware.Prelude.{
  subst, inl, inr, ℕ, ◌+◌, ◌^◌, ◌≤◌, ◌<◌, ◌≡◌, refl, sym, ◌∙◌, ap, ◌≢◌, false, Bytes, arith, length,
  ltb, ◌==◌, Bool-cases,
}
use native.Mathlib.Decide.{dec_lt}
use mini_middleware.Transport.ShmRing.{
  Slot, Ring, System, WriterPc, ReaderPc, resting, claimed, marked, copying, outside, looping,
  checking, measuring, fetching, verifying, slot, slot_index, set_slot, writer_step, writer_move,
  reader_step, reader_move, Step, write, read, Reach, here, later, start, init,
}
use mini_middleware.Transport.ShmRing.Content.{
  published_of, published, WriterHolds, update_self, update_ne,
}
use mini_middleware.Transport.ShmRing.Reading.{ReaderInv}
use mini_middleware.Transport.ShmRing.Safety.{Reach-ReaderInv, start-ReaderInv}
use mini_middleware.Transport.ShmRing.Window.{slot_index_ne}

abbrev pub IsWhole : Ring → ℕ → Type 0
IsWhole r p = ((slot r p).writing ≡ false) × ((slot r p).pos ≡ p)

-- A ring of 2 ^ k slots: the last 2 ^ k positions that are written hold their entries, and each
-- entry fits its slot.
pub record Retained (k : ℕ) (r : Ring) (log : ℕ → Bytes) (pc : WriterPc) : Type 0 where
  pub count : r.slot_count ≡ 2 ^ k
  pub kept : (p : ℕ) → p < published_of pc r.write_seq → r.write_seq ≤ p + 2 ^ k → IsWhole r p
  pub sizes : (p : ℕ) → p < r.write_seq → length (log p) ≤ r.slot_size

abbrev pub Retains : ℕ → System → Type 0
Retains k s = Retained k s.ring s.log s.writer

-- A write to the slot of a later position of the window.
IsWhole-elsewhere :
    (k : ℕ) (r : Ring) (pos p : ℕ) (sl : Slot)
    → k ≤ 32
    → r.slot_count ≡ 2 ^ k
    → p < pos
    → pos < p + 2 ^ k
    → IsWhole r p
    → IsWhole (set_slot r pos sl) p
IsWhole-elsewhere k r pos p sl h c lt near v =
    let ne : slot_index r.slot_count pos ≢ slot_index r.slot_count p =
      subst (λ n. slot_index n pos ≢ slot_index n p) (sym c) (slot_index_ne k p pos h lt near) in
    let same = update_ne r.slots (slot_index r.slot_count pos) (slot_index r.slot_count p) sl ne in
    (ap (λ (t : Slot). t.writing) same ∙ v.0, ap (λ (t : Slot). t.pos) same ∙ v.1)

-- The three ways in which `write` goes on from a claimed position, before it publishes.
before_publish :
    (k : ℕ) (s : System) (pos : ℕ) (sl : Slot) (pc pc' : WriterPc)
    → k ≤ 32
    → s.writer ≡ pc
    → s.ring.write_seq ≡ pos + 1
    → published_of pc s.ring.write_seq ≡ pos
    → published_of pc' s.ring.write_seq ≡ pos
    → Retains k s
    → Retained k (set_slot s.ring pos sl) s.log pc'
before_publish k s pos sl pc pc' h e w at at' v = record {
  count = v.count;
  kept = λ p lt near.
      IsWhole-elsewhere k s.ring pos p sl h v.count (omega (arith, lt, at'))
        (omega (arith, near, w))
        (v.kept p
          (let b : published_of s.writer s.ring.write_seq ≡ pos =
              ap (λ c. published_of c s.ring.write_seq) e ∙ at in
            omega (arith, lt, at', b))
          near);
  sizes = v.sizes;
}

writer_move-Retains :
    (k : ℕ) (s : System) (msg : Bytes) (pc : WriterPc)
    → k ≤ 32
    → s.writer ≡ pc
    → WriterHolds s pc
    → Retains k s
    → Retains k (writer_move s msg pc)
unfolding writer_move
writer_move-Retains k s msg resting h e w v =
    let at : published s ≡ s.ring.write_seq = ap (λ p. published_of p s.ring.write_seq) e in
    elim (Bool-cases (ltb s.ring.slot_size (length msg))) [
      | inl big ↦ simp big v
      | inr fits ↦ simp fits (record {
        count = v.count;
        kept = λ p lt near. v.kept p (omega (arith, lt, at)) (omega (arith, near));
        sizes = λ p lt. elim (Bool-cases (s.ring.write_seq == p)) [
          | inl same ↦ simp same (ground (arith, fits))
          | inr other ↦ simp other (v.sizes p (ground (arith, lt, other)))
        ];
      })
    ]
writer_move-Retains k s msg (claimed pos m) h e w v =
    before_publish k s pos _ (claimed pos m) (marked pos m) h e w.0 refl refl v
writer_move-Retains k s msg (marked pos m) h e w v =
    before_publish k s pos _ (marked pos m) (copying pos m 0) h e w.0 refl refl v
writer_move-Retains k s msg (copying pos m i) h e w v = elim (Bool-cases (ltb i (length m))) [
  | inl more ↦
      simp more
        (before_publish k s pos _ (copying pos m i) (copying pos m (i + 1)) h e w.0 refl refl v)
  | inr done ↦
      let sl : Slot = record (slot s.ring pos) { writing = false; pos = pos } in
      let rest =
        before_publish k s pos sl (copying pos m i) (copying pos m i) h e w.0 refl refl v in
      let self = update_self s.ring.slots (slot_index s.ring.slot_count pos) sl in
      let new : IsWhole (set_slot s.ring pos sl) pos =
        (ap (λ (t : Slot). t.writing) self, ap (λ (t : Slot). t.pos) self) in
      simp done (record {
        count = v.count;
        kept = λ p lt near. elim (dec_lt p pos) [
          | yes earlier ↦ rest.kept p earlier near
          | no last ↦ subst (IsWhole (set_slot s.ring pos sl)) (omega (arith, lt, last, w.0)) new
        ];
        sizes = v.sizes;
      })
]

-- The reader writes nothing shared.
reader_move_shared :
    (s : System) (pc : ReaderPc)
    → ((reader_move s pc).ring ≡ s.ring)
      × ((reader_move s pc).log ≡ s.log)
      × ((reader_move s pc).writer ≡ s.writer)
unfolding reader_move
reader_move_shared s outside = (refl, refl, refl)
reader_move_shared s looping = ground arith
reader_move_shared s checking = ground arith
reader_move_shared s measuring = ground arith
reader_move_shared s (fetching len out) = ground arith
reader_move_shared s (verifying out) = ground arith

Step-Retains : {k : ℕ} {s t : System} → Step s t → k ≤ 32 → ReaderInv s → Retains k s → Retains k t
unfolding writer_step reader_step
Step-Retains {k} {s} (write msg) h v r =
    writer_move-Retains k s msg s.writer h refl v.shared.writer_holds r
Step-Retains {k} {s} read h v r =
    let same = reader_move_shared s s.reader in rw (same.0, same.1, same.2) r

start-Retains : (k slot_size : ℕ) → Retains k (start (2 ^ k) slot_size)
unfolding start init
start-Retains k slot_size = record {
  count = refl;
  kept = λ p lt near. absurd (omega arith);
  sizes = λ p lt. absurd (omega arith);
}

pub Reach-Retains :
    (k slot_size : ℕ) {t : System} → k ≤ 32 → Reach (start (2 ^ k) slot_size) t → Retains k t
Reach-Retains k slot_size h here = start-Retains k slot_size
Reach-Retains k slot_size h (later r st) =
    Step-Retains st h (Reach-ReaderInv (start-ReaderInv (2 ^ k) slot_size) r)
      (Reach-Retains k slot_size h r)
