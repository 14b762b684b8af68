-- ===== src/Core/LocalBus/Types.antt =====
-- local_bus.cpp: a topic has one type, and its subscribers asked for it.
use mini_middleware.Prelude.{
  ℕ, ◌≡◌, refl, sym, ◌∙◌, ap, subst, inl, inr, List, [], ◌++◌, Bool, true, Option, none, some,
  Bytes, bytes_eq_iff, if◌then◌else◌, bytes_key, arith, Bool-cases, All, filter,
}
use mini_middleware.Prelude.Dict.{find}
use mini_middleware.Core.LocalBus.Delivery.{
  takes_type, targets, collect-filter, publish-enqueue_all,
}
use mini_middleware.Core.LocalBus.{enqueue_all, TopicEntry, Bus, is_empty, publish, Op, run}
use mini_middleware.Core.LocalBus.Typing.{EntryOk, BusOk, OpOk, collect-All, run-BusOk, empty-BusOk}

module _ (P : Bytes → Bytes → ℕ → Type 0) where
  local_part-All :
      (alive : ℕ → Bool) (topic type_name : Bytes) (e : TopicEntry)
      → EntryOk P topic e
      → takes_type e type_name ≡ true
      → All (P topic type_name) (filter alive e.sinks)
  local_part-All alive topic type_name e h t = elim (Bool-cases (is_empty e.type_name)) [
    | inl unset ↦ subst (λ ss. All (P topic type_name) (filter alive ss)) (sym (h.1 unset)) tt
    | inr set_ ↦ subst (All (P topic type_name)) (collect-filter alive e.sinks) (
        collect-All P (P topic type_name) alive e.sinks (
          subst (λ n. All (P topic n) e.sinks)
            ((bytes_eq_iff e.type_name type_name).0 (ground arith)) h.0))
  ]

abbrev pub remote_part : (ℕ → Bool) → Bytes → Option TopicEntry → List ℕ
remote_part alive type_name none = []
remote_part alive type_name (some e) =
    if takes_type e type_name then filter alive e.remote_sinks else []

abbrev local_part : (ℕ → Bool) → Bytes → Option TopicEntry → List ℕ
local_part alive type_name none = []
local_part alive type_name (some e) = if takes_type e type_name then filter alive e.sinks else []

targets-parts :
    (alive : ℕ → Bool) (type_name : Bytes) (o : Option TopicEntry)
    → targets alive type_name o ≡ local_part alive type_name o ++ remote_part alive type_name o
targets-parts alive type_name none = refl
targets-parts alive type_name (some e) = elim (Bool-cases (takes_type e type_name)) [
  | inl t ↦ rw t
  | inr t ↦ rw t
]

local_part-typed :
    (P : Bytes → Bytes → ℕ → Type 0) (alive : ℕ → Bool) (bus : Bus) (topic type_name : Bytes)
    (o : Option TopicEntry)
    → BusOk P bus
    → find topic bus ≡ o
    → All (P topic type_name) (local_part alive type_name o)
local_part-typed P alive bus topic type_name none h f = tt
local_part-typed P alive bus topic type_name (some e) h f =
    elim (Bool-cases (takes_type e type_name)) [
      | inl t ↦ rw t (local_part-All P alive topic type_name e (h topic e f) t)
      | inr t ↦ rw t tt
    ]

-- After any calls on an empty bus, `publish` with a type splits its deliveries into local and remote
-- ones, and each local one goes to a sink that was subscribed to this topic with this very type.
-- `P` is any fact that holds of the topic, type and sink of every subscription made, and every
-- subscription names a type.
pub publish_reaches_type :
    (P : Bytes → Bytes → ℕ → Type 0) (ops : List Op) (alive : ℕ → Bool)
    (topic type_name bytes : Bytes)
    → All (OpOk P) ops
    → (ls : List ℕ) × (rs : List ℕ) × ((publish alive (run [] ops) topic type_name bytes).1
        ≡ enqueue_all bytes (ls ++ rs))
      × All (P topic type_name) ls
      × (rs ≡ remote_part alive type_name (find topic (run [] ops)))
publish_reaches_type P ops alive topic type_name bytes o = (
  local_part alive type_name (find topic (run [] ops)),
  remote_part alive type_name (find topic (run [] ops)),
  publish-enqueue_all alive (run [] ops) topic type_name bytes
      ∙ ap (enqueue_all bytes) (targets-parts alive type_name (find topic (run [] ops))),
  local_part-typed P alive (run [] ops) topic type_name (find topic (run [] ops))
      (run-BusOk P [] ops o (empty-BusOk P)) refl,
  refl,
)
