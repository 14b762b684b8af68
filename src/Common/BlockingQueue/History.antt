-- ===== src/Common/BlockingQueue/History.antt =====
-- blocking_queue.h: what any sequence of calls takes out against what it puts in.
use mathlib.Core.List.{Sublistᴰ}
use mini_middleware.Prelude.{
  subst, ◌⊎◌, inl, inr, ℕ, zero, suc, ◌+◌, ◌-◌, ◌%◌, ◌^◌, ◌≤◌, ◌<◌, ◌≡◌, refl, sym, ◌∙◌, ap, List,
  [], ◌∷◌, ◌++◌, append_assoc, append-nil, true, false, Option, none, some, arith, length, drop,
  length-append, length-drop, if◌then◌else◌, Bool-cases,
}
use mini_middleware.Common.BlockingQueue.{
  BlockingQueue, PopResult, item, ended, waits, push, is_full, pop, pop_from, try_pop, try_pop_from,
  close,
}

pub data Op {ℓ} (A : Type ℓ) : Type ℓ where
  pushes : A → Op A
  pops tries closes : Op A

-- The queue at the end, the items for which `push` returned true, those that came out.
pub record Trace {ℓ} (A : Type ℓ) : Type ℓ where
  pub final : BlockingQueue A
  pub accepted : List A
  pub received : List A

module _ {ℓ} {A : Type ℓ} where
  abbrev popped : PopResult A → List A → List A
  popped (item x) xs = x ∷ xs
  popped ended xs = xs
  popped waits xs = xs

  abbrev tried : Option A → List A → List A
  tried none xs = xs
  tried (some x) xs = x ∷ xs

  pub run : BlockingQueue A → List (Op A) → Trace A
  run q [] = record { final = q; accepted = []; received = [] }
  run q (pushes x ∷ ops) =
      let t = run (push q x).0 ops in
      record t { accepted = if (push q x).1 then x ∷ t.accepted else t.accepted }
  run q (pops ∷ ops) =
      let t = run (pop q).0 ops in record t { received = popped (pop q).1 t.received }
  run q (tries ∷ ops) =
      let t = run (try_pop q).0 ops in record t { received = tried (try_pop q).1 t.received }
  run q (closes ∷ ops) = run (close q) ops

  -- What came out and what is left, against what was there and what was accepted.
  abbrev pub outputs : Trace A → List A
  outputs t = t.received ++ t.final.queue

  -- The number of items lost to full queues.
  abbrev pub lost : BlockingQueue A → Trace A → ℕ
  lost q t = length q.queue + length t.accepted - length (outputs t)

  pub record Conserved (q : BlockingQueue A) (t : Trace A) : Type ℓ where
    pub order : Sublistᴰ (outputs t) (q.queue ++ t.accepted)
    pub fewer : length (outputs t) ≤ length q.queue + length t.accepted
    pub counted : t.final.dropped ≡ (q.dropped + lost q t) % 2 ^ 64

  Sublist_refl : (xs : List A) → Sublistᴰ xs xs
  Sublist_refl [] = Sublistᴰ.slnil
  Sublist_refl (x ∷ xs) = Sublistᴰ.cons-cons refl (Sublist_refl xs)

  -- Without its first item, a queue's items are among the queue's.
  Sublist-drop :
      (k : ℕ) (xs ys zs : List A) → Sublistᴰ zs (drop k xs ++ ys) → Sublistᴰ zs (xs ++ ys)
  Sublist-drop zero xs ys zs s = s
  Sublist-drop (suc k) [] ys zs s = s
  Sublist-drop (suc k) (x ∷ xs) ys zs s = Sublistᴰ.cons (Sublist-drop k xs ys zs s)

  -- A push that first drops `k` items, none or one.
  accepts-Conserved :
      (q q' : BlockingQueue A) (x : A) (t : Trace A) (k : ℕ)
      → q'.queue ≡ drop k q.queue ++ (x ∷ [])
      → k ≤ length q.queue
      → q'.dropped ≡ (q.dropped + k) % 2 ^ 64
      → Conserved q' t
      → Conserved q (record t { accepted = x ∷ t.accepted })
  accepts-Conserved q q' x t k e h d c =
      let size : length q'.queue ≡ length q.queue - k + 1 =
        ap length e
        ∙ length-append (drop k q.queue) (x ∷ [])
        ∙ omega (arith, length-drop k q.queue) in
      record {
        order = Sublist-drop k q.queue (x ∷ t.accepted) (outputs t) (
            subst (Sublistᴰ (outputs t))
              (ap (λ (l : List A). l ++ t.accepted) e
                ∙ append_assoc (drop k q.queue) (x ∷ []) t.accepted)
              c.order);
        fewer = omega (arith, c.fewer, size);
        counted = c.counted ∙ omega (arith, d, size, c.fewer);
      }

  -- A call that takes the front item out.
  takes-Conserved :
      (q q' : BlockingQueue A) (x : A) (t : Trace A)
      → q.queue ≡ x ∷ q'.queue
      → q'.dropped ≡ q.dropped
      → Conserved q' t
      → Conserved q (record t { received = x ∷ t.received })
  takes-Conserved q q' x t e d c =
      let size : length q.queue ≡ suc (length q'.queue) = ap length e in
      record {
        order =
            subst (λ (l : List A). Sublistᴰ (x ∷ outputs t) (l ++ t.accepted)) (sym e)
              (Sublistᴰ.cons-cons refl c.order);
        fewer = omega (arith, c.fewer, size);
        counted = c.counted ∙ omega (arith, d, size, c.fewer);
      }

  -- A call that leaves the items alone.
  leaves-Conserved :
      (q q' : BlockingQueue A) (t : Trace A)
      → q'.queue ≡ q.queue
      → q'.dropped ≡ q.dropped
      → Conserved q' t
      → Conserved q t
  leaves-Conserved q q' t e d c =
      let size : length q'.queue ≡ length q.queue = ap length e in
      record {
        order = subst (λ (l : List A). Sublistᴰ (outputs t) (l ++ t.accepted)) e c.order;
        fewer = omega (arith, c.fewer, size);
        counted = c.counted ∙ omega (arith, d, size, c.fewer);
      }

  -- A push is refused, or drops `k` items, none or one, and adds its own.
  push_cases :
      (q : BlockingQueue A) (x : A)
      → q.dropped < 2 ^ 64
      → (push q x ≡ (q, false))
        ⊎ ((k : ℕ) × (k ≤ length q.queue)
            × ((push q x).1 ≡ true)
            × ((push q x).0.queue ≡ drop k q.queue ++ (x ∷ []))
            × ((push q x).0.dropped ≡ (q.dropped + k) % 2 ^ 64))
  unfolding push
  push_cases q x h = elim (Bool-cases q.closed) [
    | inl e ↦ inl (ground arith)
    | inr e ↦ elim (Bool-cases (is_full q)) [
      | inl full ↦ inr (1, ground arith, ground arith, ground arith, ground arith)
      | inr some_room ↦ inr (0, ground arith, ground arith, ground arith, ground arith)
    ]
  ]

  pop_cases :
      (q : BlockingQueue A)
      → (((pop q).0 ≡ q) × ((xs : List A) → popped (pop q).1 xs ≡ xs))
        ⊎ ((x : A) × ((pop q).1 ≡ item x)
            × (q.queue ≡ x ∷ (pop q).0.queue)
            × ((pop q).0.dropped ≡ q.dropped))
  unfolding pop
  pop_cases q = go q.queue refl
    where
      go :
          (l : List A)
          → q.queue ≡ l
          → (((pop_from q l).0 ≡ q) × ((xs : List A) → popped (pop_from q l).1 xs ≡ xs))
            ⊎ ((x : A) × ((pop_from q l).1 ≡ item x)
                × (q.queue ≡ x ∷ (pop_from q l).0.queue)
                × ((pop_from q l).0.dropped ≡ q.dropped))
      go [] e = inl (ground arith, λ xs. ground arith)
      go (x ∷ l) e = inr (x, refl, e, refl)

  try_pop_cases :
      (q : BlockingQueue A)
      → (try_pop q ≡ (q, none))
        ⊎ ((x : A) × ((try_pop q).1 ≡ some x)
            × (q.queue ≡ x ∷ (try_pop q).0.queue)
            × ((try_pop q).0.dropped ≡ q.dropped))
  unfolding try_pop
  try_pop_cases q = go q.queue refl
    where
      go :
          (l : List A)
          → q.queue ≡ l
          → (try_pop_from q l ≡ (q, none))
            ⊎ ((x : A) × ((try_pop_from q l).1 ≡ some x)
                × (q.queue ≡ x ∷ (try_pop_from q l).0.queue)
                × ((try_pop_from q l).0.dropped ≡ q.dropped))
      go [] e = inl refl
      go (x ∷ l) e = inr (x, refl, e, refl)

  -- After any sequence of calls, what came out followed by what is left is, in order, part of what
  -- was there followed by what was accepted, and `dropped` has grown by the number of items lost.
  pub run-Conserved :
      (q : BlockingQueue A) (ops : List (Op A)) → q.dropped < 2 ^ 64 → Conserved q (run q ops)
  unfolding run close
  run-Conserved q [] h = record {
    order = subst (Sublistᴰ q.queue) (sym (append-nil q.queue)) (Sublist_refl q.queue);
    fewer = omega arith;
    counted = omega arith;
  }
  run-Conserved q (pushes x ∷ ops) h = elim (push_cases q x h) [
    | inl e ↦ rw e (run-Conserved q ops h)
    | inr (k, le, done, queue, dropped) ↦ rw done (
        accepts-Conserved q (push q x).0 x (run (push q x).0 ops) k queue le dropped
          (run-Conserved (push q x).0 ops (omega arith)))
  ]
  run-Conserved q (pops ∷ ops) h = elim (pop_cases q) [
    | inl (e, none_out) ↦ rw (none_out (run (pop q).0 ops).received, e) (run-Conserved q ops h)
    | inr (x, out, e, d) ↦ rw out (
        takes-Conserved q (pop q).0 x (run (pop q).0 ops) e d
          (run-Conserved (pop q).0 ops (omega arith)))
  ]
  run-Conserved q (tries ∷ ops) h = elim (try_pop_cases q) [
    | inl e ↦ rw e (run-Conserved q ops h)
    | inr (x, out, e, d) ↦ rw out (
        takes-Conserved q (try_pop q).0 x (run (try_pop q).0 ops) e d
          (run-Conserved (try_pop q).0 ops (omega arith)))
  ]
  run-Conserved q (closes ∷ ops) h =
      leaves-Conserved q (close q) (run (close q) ops) refl refl (run-Conserved (close q) ops h)
