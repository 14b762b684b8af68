-- ===== src/Transport/ShmRing/Safety.antt =====
-- shm_ring.h: no interleaving of the writer and the reader hands out a torn or a wrong message.
use native.Mathlib.Decide.{dec_lt}
use mini_middleware.Prelude.{
  subst, inl, inr, ℕ, ◌+◌, ◌-◌, ◌≤◌, ◌<◌, ◌≡◌, refl, ◌∙◌, [], ◌∷◌, ◌++◌, Bytes, arith, length,
  get_or, ltb, leb, ◌==◌, ==_iff, Bool-cases, length-append,
}
use mini_middleware.Transport.ShmRing.{
  System, ReaderPc, outside, looping, checking, measuring, fetching, verifying, slot, slot_index,
  reader_step, reader_move, skip_one, fast_forward, Step, write, read, Reach, here, later, start,
}
use mini_middleware.Transport.ShmRing.Content.{published, Holds, Inv}
use mini_middleware.Transport.ShmRing.Writing.{IsFresh}
use mini_middleware.Transport.ShmRing.Reading.{
  Reads, Falls-mono, ReaderInv, writer_step-ReaderInv, IsFront-whole, get_or-append_front,
  get_or-append_last,
}

-- The reader at another point of `read`, with nothing else changed.
goes_to :
    (s : System) (pc : ReaderPc)
    → ReaderInv s
    → Reads s s.next pc
    → ReaderInv (record s { reader = pc })
goes_to s pc v r = record {
  shared = record { slots_ok = v.shared.slots_ok; writer_holds = v.shared.writer_holds };
  reads = r;
  genuine = v.genuine;
  falls = v.falls;
  counted = v.counted;
}

-- The reader gives up positions, and counts each.
gives_up :
    (s : System) (pc : ReaderPc) (next' dropped' : ℕ)
    → ReaderInv s
    → ((n : ℕ) → Reads s n pc)
    → s.next ≤ next'
    → dropped' + s.next ≡ s.dropped + next'
    → ReaderInv (record s { reader = pc; next = next'; dropped = dropped' })
gives_up s pc next' dropped' v r le e = record {
  shared = record { slots_ok = v.shared.slots_ok; writer_holds = v.shared.writer_holds };
  reads = r next';
  genuine = v.genuine;
  falls = Falls-mono s.next next' s.delivered le v.falls;
  counted = omega (arith, v.counted);
}

skip_one-ReaderInv : (s : System) → ReaderInv s → ReaderInv (skip_one s)
skip_one-ReaderInv s v =
    gives_up s looping (s.next + 1) (s.dropped + 1) v (λ n. tt) (omega arith) (omega arith)

-- A whole slot holds the message of its position.
pub fresh-Holds :
    (s : System) (n : ℕ) → Inv s → IsFresh s n → (n < published s) × Holds (slot s.ring n) (s.log n)
fresh-Holds s n v f =
    subst (λ p. (p < published s) × Holds (slot s.ring n) (s.log p)) f.1
      (v.slots_ok (slot_index s.ring.slot_count n) f.0)

fetch-ReaderInv :
    (s : System) (len : ℕ) (out : Bytes)
    → ReaderInv s
    → Reads s s.next (fetching len out)
    → length out < len
    → ReaderInv
        (record s { reader = fetching len (out ++ ((slot s.ring s.next).cells (length out) ∷ [])) })
fetch-ReaderInv s len out v r lt =
    let c = (slot s.ring s.next).cells (length out) in
    let size : length (out ++ (c ∷ [])) ≡ length out + 1 =
      length-append out (c ∷ []) ∙ omega arith in
    goes_to s (fetching len (out ++ (c ∷ []))) v (
      r.0,
      omega (arith, size),
      λ f. (
        (r.2 f).0,
        λ j before. elim (dec_lt j (length out)) [
          | yes old ↦ get_or-append_front out c j old ∙ (r.2 f).1 j old
          | no new ↦
              subst (λ k. get_or (out ++ (c ∷ [])) k 0 ≡ get_or (s.log s.next) k 0)
                (let at : length out ≡ j = omega (arith, size) in at)
                (get_or-append_last out c
                  ∙ (fresh-Holds s s.next v.shared f).1.bytes (length out)
                      (omega (arith, (r.2 f).0)))
        ],
      ),
    )

deliver-ReaderInv :
    (s : System) (out : Bytes)
    → ReaderInv s
    → s.next < published s
    → out ≡ s.log s.next
    → ReaderInv
        (record s { reader = outside; next = s.next + 1; delivered = (s.next, out) ∷ s.delivered })
deliver-ReaderInv s out v lt e = record {
  shared = record { slots_ok = v.shared.slots_ok; writer_holds = v.shared.writer_holds };
  reads = tt;
  genuine = ((lt, e), v.genuine);
  falls = (omega arith, v.falls);
  counted = omega (arith, v.counted);
}

fast_forward-le : (n w next : ℕ) → next ≤ fast_forward n w next
fast_forward-le n w next = ground arith

reader_move-ReaderInv :
    (s : System) (pc : ReaderPc) → ReaderInv s → Reads s s.next pc → ReaderInv (reader_move s pc)
unfolding reader_move
reader_move-ReaderInv s outside v r = goes_to s looping v tt
reader_move-ReaderInv s looping v r = elim (Bool-cases (leb s.ring.write_seq s.next)) [
  | inl none_new ↦ simp none_new (goes_to s outside v tt)
  | inr some_new ↦
      let target = fast_forward s.ring.slot_count s.ring.write_seq s.next in
      let le = fast_forward-le s.ring.slot_count s.ring.write_seq s.next in
      simp some_new (
        gives_up s checking target (s.dropped + (target - s.next)) v (λ n. tt) le
          (omega (arith, le)))
]
reader_move-ReaderInv s checking v r = elim (Bool-cases ((slot s.ring s.next).pos == s.next)) [
  | inr other ↦ simp other (skip_one-ReaderInv s v)
  | inl same ↦ elim (Bool-cases (slot s.ring s.next).writing) [
    | inl busy ↦ simp (same, busy) (goes_to s outside v tt)
    | inr whole ↦
        simp (same, whole)
          (goes_to s measuring v (fresh-Holds s s.next v.shared (whole, (==_iff _ _).0 same)).0)
  ]
]
reader_move-ReaderInv s measuring v r =
    elim (Bool-cases (ltb s.ring.slot_size (slot s.ring s.next).len)) [
      | inl long ↦ simp long (skip_one-ReaderInv s v)
      | inr fits ↦ simp fits (
          goes_to s (fetching (slot s.ring s.next).len []) v (
            r,
            omega arith,
            λ f. ((fresh-Holds s s.next v.shared f).1.length_, λ j lt. absurd (omega arith)),
          ))
    ]
reader_move-ReaderInv s (fetching len out) v r = elim (Bool-cases (ltb (length out) len)) [
  | inl more ↦ simp more (fetch-ReaderInv s len out v r (ground arith))
  | inr done ↦ simp done (
      goes_to s (verifying out) v (
        r.0,
        λ f.
            IsFront-whole out (s.log s.next)
              (let all : len ≤ length out = ground arith in omega (arith, all, (r.2 f).0, r.1))
              (r.2 f).1,
      ))
]
reader_move-ReaderInv s (verifying out) v r = elim (Bool-cases (slot s.ring s.next).writing) [
  | inl busy ↦ simp busy (skip_one-ReaderInv s v)
  | inr whole ↦ elim (Bool-cases ((slot s.ring s.next).pos == s.next)) [
    | inr other ↦ simp (whole, other) (skip_one-ReaderInv s v)
    | inl same ↦
        simp (whole, same) (deliver-ReaderInv s out v r.0 (r.1 (whole, (==_iff _ _).0 same)))
  ]
]

pub Step-ReaderInv : {s t : System} → Step s t → ReaderInv s → ReaderInv t
unfolding reader_step
Step-ReaderInv {s} (write msg) v = writer_step-ReaderInv s msg v
Step-ReaderInv {s} read v = reader_move-ReaderInv s s.reader v v.reads

pub start-ReaderInv : (slot_count slot_size : ℕ) → ReaderInv (start slot_count slot_size)
unfolding start
start-ReaderInv slot_count slot_size = record {
  shared = record { slots_ok = λ i f. cc; writer_holds = tt };
  reads = tt;
  genuine = tt;
  falls = tt;
  counted = refl;
}

pub Reach-ReaderInv : {s t : System} → ReaderInv s → Reach s t → ReaderInv t
Reach-ReaderInv v here = v
Reach-ReaderInv v (later r st) = Step-ReaderInv st (Reach-ReaderInv v r)
