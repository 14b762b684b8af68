-- ===== src/Common/BlockingQueue/Calls.antt =====
-- blocking_queue.h: what single calls give, by the queue's items.
use mini_middleware.Prelude.{◌≡◌, refl, ◌∙◌, ap, List, [], ◌∷◌, ◌++◌, true, false, arith}
use mini_middleware.Common.BlockingQueue.{
  BlockingQueue, item, ended, waits, push, make_room, is_full, pop, pop_from,
}

module _ {ℓ} {A : Type ℓ} where
  pub push-unbounded :
      (q : BlockingQueue A) (x : A)
      → q.closed ≡ false
      → q.capacity ≡ 0
      → push q x ≡ (record q { queue = q.queue ++ (x ∷ []) }, true)
  unfolding push make_room
  push-unbounded q x opened unbounded =
      let room : is_full q ≡ false = ground (arith, unbounded) in simp (opened, room) refl

  pub pop-item :
      (q : BlockingQueue A) (x : A) (xs : List A)
      → q.queue ≡ x ∷ xs
      → pop q ≡ (record q { queue = xs }, item x)
  unfolding pop pop_from
  pop-item q x xs e = simp e refl

  pub pop-waits : (q : BlockingQueue A) → q.queue ≡ [] → q.closed ≡ false → pop q ≡ (q, waits)
  unfolding pop pop_from
  pop-waits q e opened = ap (pop_from q) e ∙ simp opened refl

  pub pop-ended : (q : BlockingQueue A) → q.queue ≡ [] → q.closed ≡ true → pop q ≡ (q, ended)
  unfolding pop pop_from
  pop-ended q e shut = ap (pop_from q) e ∙ simp shut refl
