-- ===== src/Core/LocalBus/Delivery.antt =====
-- local_bus.cpp: who gets a payload.
use mini_middleware.Prelude.{
  ℕ, ◌≡◌, refl, ◌∙◌, ap, inl, inr, List, [], ◌∷◌, ◌++◌, Bool, false, ◌||◌, Option, none, some,
  Bytes, bytes_eq, bytes_eq_iff, if◌then◌else◌, bytes_key, arith, Option-cases, Bool-cases, filter,
  concat, map,
}
use mini_middleware.Prelude.Dict.{find, insert, find-insert}
use mini_middleware.Core.LocalBus.{
  TopicEntry, Bus, Delivery, collect, is_empty, check_type, enqueue_all, publish, publish_entry,
  deliver_inbound, inbound_entry, add_remote_sink,
}

-- What the bus keeps of a list is what lives of it.
pub collect-filter : (alive : ℕ → Bool) (ss : List ℕ) → collect alive ss ≡ filter alive ss
unfolding collect
collect-filter alive [] = refl
collect-filter alive (s ∷ ss) = rw (collect-filter alive ss) refl

filter-filter : (alive : ℕ → Bool) (ss : List ℕ) → filter alive (filter alive ss) ≡ filter alive ss
filter-filter alive [] = refl
filter-filter alive (s ∷ ss) = elim (Bool-cases (alive s)) [
  | inl e ↦ rw (e, e) (ap (◌∷◌ s) (filter-filter alive ss))
  | inr e ↦ rw e (filter-filter alive ss)
]

-- A type that a topic takes: its own, or any while it has none.
abbrev pub takes_type : TopicEntry → Bytes → Bool
takes_type e type_name = is_empty e.type_name || bytes_eq e.type_name type_name

-- The targets of `publish`.
abbrev pub targets : (ℕ → Bool) → Bytes → Option TopicEntry → List ℕ
targets alive type_name none = []
targets alive type_name (some e) =
    if takes_type e type_name then filter alive e.sinks ++ filter alive e.remote_sinks else []

publish_entry_lem :
    (alive : ℕ → Bool) (bus : Bus) (topic type_name bytes : Bytes) (o : Option TopicEntry)
    → (publish_entry alive bus topic type_name o bytes).1
      ≡ enqueue_all bytes (targets alive type_name o)
unfolding publish_entry check_type
publish_entry_lem alive bus topic type_name bytes none = refl
publish_entry_lem alive bus topic type_name bytes (some e) =
    ground (arith, collect-filter alive e.sinks, collect-filter alive e.remote_sinks)

pub publish-enqueue_all :
    (alive : ℕ → Bool) (bus : Bus) (topic type_name bytes : Bytes)
    → (publish alive bus topic type_name bytes).1
      ≡ enqueue_all bytes (targets alive type_name (find topic bus))
unfolding publish
publish-enqueue_all alive bus topic type_name bytes =
    publish_entry_lem alive bus topic type_name bytes (find topic bus)

pub find-insert_other :
    (topic other : Bytes) (e : TopicEntry) (bus : Bus)
    → bytes_eq topic other ≡ false
    → find other (insert topic e bus) ≡ find other bus
find-insert_other topic other e bus ne =
    find-insert topic other e bus ∙ ap (λ b. if b then some e else find other bus) ne

abbrev pub local_sinks : Option TopicEntry → List ℕ
local_sinks none = []
local_sinks (some e) = e.sinks

inbound_entry_lem :
    (alive : ℕ → Bool) (bus : Bus) (topic bytes : Bytes) (o : Option TopicEntry)
    → (inbound_entry alive bus topic o bytes).1 ≡ enqueue_all bytes (filter alive (local_sinks o))
unfolding inbound_entry
inbound_entry_lem alive bus topic bytes none = refl
inbound_entry_lem alive bus topic bytes (some e) =
    ap (enqueue_all bytes) (collect-filter alive e.sinks)

-- The remote sinks that are added make no difference to who is subscribed locally.
add_remote_sink-local :
    (bus : Bus) (topic other : Bytes) (sink : ℕ)
    → local_sinks (find other (add_remote_sink bus topic sink)) ≡ local_sinks (find other bus)
unfolding add_remote_sink
add_remote_sink-local bus topic other sink = elim (Option-cases (find topic bus)) [
  | inl e ↦
      simp (e, find-insert)
        (ground (arith, bytes_eq_iff topic other, ap (λ t. find t bus) {x = topic} {y = other}))
  | inr (t, e) ↦
      simp (e, find-insert)
        (ground (arith, bytes_eq_iff topic other, ap (λ t. find t bus) {x = topic} {y = other}))
]

abbrev pub add_remotes : Bus → List (Bytes × ℕ) → Bus
add_remotes bus [] = bus
add_remotes bus ((topic, sink) ∷ rs) = add_remotes (add_remote_sink bus topic sink) rs

add_remotes-local :
    (bus : Bus) (other : Bytes) (rs : List (Bytes × ℕ))
    → local_sinks (find other (add_remotes bus rs)) ≡ local_sinks (find other bus)
add_remotes-local bus other [] = refl
add_remotes-local bus other ((topic, sink) ∷ rs) =
    add_remotes-local (add_remote_sink bus topic sink) other rs
    ∙ add_remote_sink-local bus topic other sink

-- An inbound payload is never forwarded: whatever remote sinks were added to any topics, it goes
-- exactly once to each live local subscriber of its topic, in order, and to nobody else.
pub inbound_not_forwarded :
    (alive : ℕ → Bool) (bus : Bus) (rs : List (Bytes × ℕ)) (topic bytes : Bytes)
    → (deliver_inbound alive (add_remotes bus rs) topic bytes).1
      ≡ enqueue_all bytes (filter alive (local_sinks (find topic bus)))
unfolding deliver_inbound
inbound_not_forwarded alive bus rs topic bytes =
    inbound_entry_lem alive (add_remotes bus rs) topic bytes (find topic (add_remotes bus rs))
    ∙ ap (λ l. enqueue_all bytes (filter alive l)) (add_remotes-local bus topic rs)

-- The live local subscribers of a topic.
abbrev pub listeners : (ℕ → Bool) → Bus → Bytes → List ℕ
listeners alive bus topic = filter alive (local_sinks (find topic bus))

-- Each payload once to each live local subscriber of the topic.
abbrev pub to_listeners : (ℕ → Bool) → Bus → Bytes → List Bytes → List Delivery
to_listeners alive bus topic payloads =
    concat (map (λ (bytes : Bytes). enqueue_all bytes (listeners alive bus topic)) payloads)

pub deliver_inbound-listeners :
    (alive : ℕ → Bool) (bus : Bus) (topic bytes other : Bytes)
    → listeners alive (deliver_inbound alive bus topic bytes).0 other ≡ listeners alive bus other
unfolding deliver_inbound inbound_entry
deliver_inbound-listeners alive bus topic bytes other = elim (Option-cases (find topic bus)) [
  | inl e ↦ simp e refl
  | inr (t, e) ↦
      simp (e, find-insert)
        (ground (
          arith,
          bytes_eq_iff topic other,
          ap (λ t. find t bus) {x = topic} {y = other},
          collect-filter alive t.sinks,
          filter-filter alive t.sinks,
        ))
]
