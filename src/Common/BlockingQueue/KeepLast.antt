-- ===== src/Common/BlockingQueue/KeepLast.antt =====
-- blocking_queue.h: a bounded queue keeps the last items that were pushed.
use native.Mathlib.Decide.{dec_lt}
use mini_middleware.Prelude.{
  ℕ, zero, suc, ◌+◌, ◌-◌, ◌%◌, ◌^◌, ◌≤◌, ◌<◌, ◌≡◌, refl, sym, ◌∙◌, ap, List, [], ◌∷◌, ◌++◌,
  append_assoc, append-nil, false, arith, length, drop, length-append, length-drop, drop-append_le,
  if◌then◌else◌,
}
use mini_middleware.Common.BlockingQueue.{BlockingQueue, push, is_full}

module _ {ℓ} {A : Type ℓ} where
  -- One `push` after the other.
  abbrev pub push_all : BlockingQueue A → List A → BlockingQueue A
  push_all q [] = q
  push_all q (x ∷ xs) = push_all (push q x).0 xs

  -- The last `n` items of a list.
  abbrev pub last : ℕ → List A → List A
  last n xs = drop (length xs - n) xs

  drop-drop : (m n k : ℕ) (xs : List A) → k ≡ n + m → drop m (drop n xs) ≡ drop k xs
  drop-drop m zero k xs e = ap (λ j. drop j xs) (omega arith)
  drop-drop zero (suc n) zero [] e = refl
  drop-drop zero (suc n) (suc k) [] e = refl
  drop-drop (suc m) (suc n) zero [] e = refl
  drop-drop (suc m) (suc n) (suc k) [] e = refl
  drop-drop m (suc n) zero (x ∷ xs) e = absurd (omega arith)
  drop-drop m (suc n) (suc k) (x ∷ xs) e = drop-drop m n k xs (omega arith)

  last-drop-append :
      (n k : ℕ) (ys xs : List A)
      → k ≤ length ys
      → length ys + length xs - n ≡ k + (length ys + length xs - k - n)
      → last n (drop k ys ++ xs) ≡ last n (ys ++ xs)
  last-drop-append n k ys xs h g =
      ap (last n) (sym (drop-append_le k ys xs h))
      ∙ drop-drop (length (drop k (ys ++ xs)) - n) k (length (ys ++ xs) - n) (ys ++ xs)
          (omega (arith, length-drop k (ys ++ xs), length-append ys xs))

  -- A queue that takes items, within its bound.
  pub record IsBounded (q : BlockingQueue A) : Type 0 where
    pub open_ : q.closed ≡ false
    pub bounded : 0 < q.capacity
    pub room : length q.queue ≤ q.capacity

  push-queue :
      (q : BlockingQueue A) (x : A)
      → IsBounded q
      → (push q x).0.queue ≡ drop (length q.queue + 1 - q.capacity) (q.queue ++ (x ∷ []))
  unfolding push
  push-queue q x v = elim (dec_lt (length q.queue) q.capacity) [
    | yes lt ↦
        let k : length q.queue + 1 - q.capacity ≡ 0 = omega (arith, v.room) in
        rw (v.open_, k) (ground arith)
    | no ge ↦
        let k : length q.queue + 1 - q.capacity ≡ 1 = omega (arith, v.room) in
        rw (v.open_, k, drop-append_le 1 q.queue (x ∷ []) (omega (arith, v.bounded)))
          (ground (arith, v.bounded))
  ]

  push-others :
      (q : BlockingQueue A) (x : A)
      → IsBounded q
      → ((push q x).0.capacity ≡ q.capacity)
        × ((push q x).0.closed ≡ false)
        × ((push q x).0.dropped ≡ (if is_full q then (q.dropped + 1) % 2 ^ 64 else q.dropped))
  unfolding push
  push-others q x v = ground arith

  length-push : (q : BlockingQueue A) (x : A) → IsBounded q → length (push q x).0.queue ≤ q.capacity
  length-push q x v = omega (
    arith,
    ap length (push-queue q x v),
    length-drop (length q.queue + 1 - q.capacity) (q.queue ++ (x ∷ [])),
    length-append q.queue (x ∷ []),
    v.room,
  )

  push-IsBounded : (q : BlockingQueue A) (x : A) → IsBounded q → IsBounded (push q x).0
  push-IsBounded q x v = record {
    open_ = (push-others q x v).1;
    bounded = omega (arith, (push-others q x v).0, v.bounded);
    room = omega (arith, (push-others q x v).0, length-push q x v);
  }

  -- Pushing any items onto an open queue of capacity N > 0 leaves the last N of the items that it
  -- held and of the new ones, oldest first, and its capacity as it was.
  pub push_all_keeps_last :
      (q : BlockingQueue A) (xs : List A)
      → IsBounded q
      → ((push_all q xs).queue ≡ last q.capacity (q.queue ++ xs))
        × ((push_all q xs).capacity ≡ q.capacity)
  push_all_keeps_last q [] v = (
    ap (λ k. drop k q.queue) {x = 0} (omega (arith, v.room, length-append q.queue []))
        ∙ ap (last q.capacity) (sym (append-nil q.queue)),
    refl,
  )
  push_all_keeps_last q (x ∷ xs) v =
      let (ih, cap) = push_all_keeps_last (push q x).0 xs (push-IsBounded q x v) in
      let same = (push-others q x v).0 in
      (
        ih
            ∙ ap (λ n. last n ((push q x).0.queue ++ xs)) same
            ∙ ap (λ t. last q.capacity (t ++ xs)) (push-queue q x v)
            ∙ last-drop-append q.capacity (length q.queue + 1 - q.capacity) (q.queue ++ (x ∷ [])) xs
                (omega (arith, length-append q.queue (x ∷ []), v.bounded))
                (omega (arith, length-append q.queue (x ∷ []), v.bounded, v.room))
            ∙ ap (last q.capacity) (append_assoc q.queue (x ∷ []) xs),
        cap ∙ same,
      )
