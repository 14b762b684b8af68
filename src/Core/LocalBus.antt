-- ===== src/Core/LocalBus.antt =====
-- core/include/core/local_bus.h and core/src/local_bus.cpp. A sink is a number, and a std::weak_ptr
-- to it locks while `alive` says so; each call is one step under the mutex, and its deliveries are
-- the `enqueue` calls that it makes after releasing it, in order.
pub mod Delivery
pub mod Typing
pub mod Types
use mini_middleware.Prelude.{
  ℕ, List, [], ◌∷◌, ◌++◌, map, Bool, true, false, not, ◌||◌, Option, none, some, Bytes, bytes_eq,
  if◌then◌else◌, ◌==◌, bytes_key,
}
use mini_middleware.Prelude.Dict.{Dict, find, insert}

pub record TopicEntry : Type 0 where
  pub type_name : Bytes
  pub sinks : List ℕ
  pub remote_sinks : List ℕ

abbrev pub Bus : Type 0
Bus = Dict Bytes TopicEntry

abbrev pub Delivery : Type 0
Delivery = ℕ × Bytes

abbrev pub empty_entry : TopicEntry
empty_entry = record { type_name = []; sinks = []; remote_sinks = [] }

-- `topics_[topic]`, which makes an empty entry where there is none.
abbrev pub entry_or_empty : Option TopicEntry → TopicEntry
entry_or_empty none = empty_entry
entry_or_empty (some e) = e

-- The live sinks of a list, which are also what stays of the list.
unfoldable pub collect : (ℕ → Bool) → List ℕ → List ℕ
collect alive [] = []
collect alive (s ∷ ss) = if alive s then s ∷ collect alive ss else collect alive ss

abbrev pub is_empty : Bytes → Bool
is_empty [] = true
is_empty (b ∷ bs) = false

-- The first type given to a topic stays; another is refused.
unfoldable pub check_type : TopicEntry → Bytes → TopicEntry × Bool
check_type e type_name =
    if is_empty e.type_name
    then (record e { type_name = type_name }, true)
    else if not (bytes_eq e.type_name type_name)
    then (e, false)
    else (e, true)

unfoldable pub register_publisher : Bus → Bytes → Bytes → Bus
register_publisher bus topic type_name =
    insert topic (check_type (entry_or_empty (find topic bus)) type_name).0 bus

unfoldable pub subscribe : Bus → Bytes → Bytes → ℕ → Bus
subscribe bus topic type_name sink =
    let (e, ok) = check_type (entry_or_empty (find topic bus)) type_name in
    insert topic (if ok then record e { sinks = e.sinks ++ (sink ∷ []) } else e) bus

abbrev pub enqueue_all : Bytes → List ℕ → List Delivery
enqueue_all bytes = map (λ s. (s, bytes))

publish_entry : (ℕ → Bool) → Bus → Bytes → Bytes → Option TopicEntry → Bytes → Bus × List Delivery
publish_entry alive bus topic type_name none bytes = (bus, [])
publish_entry alive bus topic type_name (some e) bytes =
    let (e', ok) = check_type e type_name in
    if ok
    then (
      insert topic
          (record e' {
            sinks = collect alive e'.sinks;
            remote_sinks = collect alive e'.remote_sinks;
          })
          bus,
      enqueue_all bytes (collect alive e'.sinks ++ collect alive e'.remote_sinks),
    )
    else (insert topic e' bus, [])

unfoldable pub publish : (ℕ → Bool) → Bus → Bytes → Bytes → Bytes → Bus × List Delivery
unfolding publish_entry
publish alive bus topic type_name bytes =
    publish_entry alive bus topic type_name (find topic bus) bytes

unfoldable pub add_remote_sink : Bus → Bytes → ℕ → Bus
add_remote_sink bus topic sink =
    let e = entry_or_empty (find topic bus) in
    insert topic (record e { remote_sinks = e.remote_sinks ++ (sink ∷ []) }) bus

-- The dead sinks go too.
unfoldable pub remove_sink : (ℕ → Bool) → ℕ → List ℕ → List ℕ
remove_sink alive sink [] = []
remove_sink alive sink (s ∷ ss) =
    if not (alive s) || (s == sink)
    then remove_sink alive sink ss
    else s ∷ remove_sink alive sink ss

unfoldable pub remove_entry : (ℕ → Bool) → Bus → Bytes → Option TopicEntry → ℕ → Bus
remove_entry alive bus topic none sink = bus
remove_entry alive bus topic (some e) sink =
    insert topic (record e { remote_sinks = remove_sink alive sink e.remote_sinks }) bus

unfoldable pub remove_remote_sink : (ℕ → Bool) → Bus → Bytes → ℕ → Bus
unfolding remove_entry
remove_remote_sink alive bus topic sink = remove_entry alive bus topic (find topic bus) sink

unfoldable pub inbound_entry :
    (ℕ → Bool) → Bus → Bytes → Option TopicEntry → Bytes → Bus × List Delivery
inbound_entry alive bus topic none bytes = (bus, [])
inbound_entry alive bus topic (some e) bytes = (
  insert topic (record e { sinks = collect alive e.sinks }) bus,
  enqueue_all bytes (collect alive e.sinks),
)

unfoldable pub deliver_inbound : (ℕ → Bool) → Bus → Bytes → Bytes → Bus × List Delivery
unfolding inbound_entry
deliver_inbound alive bus topic bytes = inbound_entry alive bus topic (find topic bus) bytes

-- The calls of a bus, each with the sinks that live at that time.
pub data Op : Type 0 where
  registers : Bytes → Bytes → Op
  subscribes : Bytes → Bytes → ℕ → Op
  publishes : (ℕ → Bool) → Bytes → Bytes → Bytes → Op
  adds_remote : Bytes → ℕ → Op
  removes_remote : (ℕ → Bool) → Bytes → ℕ → Op
  delivers : (ℕ → Bool) → Bytes → Bytes → Op

unfoldable pub step : Bus → Op → Bus
step bus (registers topic type_name) = register_publisher bus topic type_name
step bus (subscribes topic type_name sink) = subscribe bus topic type_name sink
step bus (publishes alive topic type_name bytes) = (publish alive bus topic type_name bytes).0
step bus (adds_remote topic sink) = add_remote_sink bus topic sink
step bus (removes_remote alive topic sink) = remove_remote_sink alive bus topic sink
step bus (delivers alive topic bytes) = (deliver_inbound alive bus topic bytes).0

unfoldable pub run : Bus → List Op → Bus
run bus [] = bus
run bus (op ∷ ops) = run (step bus op) ops
