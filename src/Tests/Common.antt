-- ===== src/Tests/Common.antt =====
-- blocking_queue.h on a queue of two items.
use mini_middleware.Prelude.{ℕ, ◌≡◌, refl, List, [], ◌∷◌, false, arith}
use mini_middleware.Common.BlockingQueue.{BlockingQueue}
use mini_middleware.Common.BlockingQueue.KeepLast.{push_all, IsBounded, push_all_keeps_last}
use mini_middleware.Common.BlockingQueue.History.{
  Op, pushes, pops, tries, closes, run, Conserved, run-Conserved,
}

abbrev two_items : BlockingQueue ℕ
two_items = record { queue = 1 ∷ 2 ∷ []; capacity = 2; dropped = 0; closed = false }

two_items-IsBounded : IsBounded two_items
two_items-IsBounded = record { open_ = refl; bounded = omega arith; room = omega arith }

push_all_keeps_last_example :
    ((push_all two_items (3 ∷ 4 ∷ 5 ∷ [])).queue ≡ 4 ∷ 5 ∷ [])
    × ((push_all two_items (3 ∷ 4 ∷ 5 ∷ [])).capacity ≡ 2)
push_all_keeps_last_example = push_all_keeps_last two_items (3 ∷ 4 ∷ 5 ∷ []) two_items-IsBounded

abbrev calls : List (Op ℕ)
calls = pushes 3 ∷ pops ∷ tries ∷ pushes 4 ∷ closes ∷ pushes 5 ∷ pops ∷ pops ∷ []

run-Conserved_example : Conserved two_items (run two_items calls)
run-Conserved_example = run-Conserved two_items calls (omega arith)
