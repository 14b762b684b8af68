-- ===== src/Tests/Bus.antt =====
-- local_bus.cpp: one topic with two subscribers and a remote sink.
use mini_middleware.Prelude.{ℕ, ◌≡◌, refl, List, [], ◌∷◌, ◌++◌, Bool, true, Bytes, All, bytes_key}
use mini_middleware.Prelude.Dict.{find}
use mini_middleware.Core.LocalBus.{Bus, enqueue_all, publish, Op, subscribes, adds_remote, run}
use mini_middleware.Core.LocalBus.Types.{remote_part, publish_reaches_type}

abbrev topic : Bytes
topic = 116 ∷ []

abbrev type_name : Bytes
type_name = 83 ∷ []

abbrev everyone : ℕ → Bool
everyone s = true

abbrev bus : Bus
bus = (topic, record { type_name = type_name; sinks = 1 ∷ 2 ∷ []; remote_sinks = 9 ∷ [] }) ∷ []

abbrev ops : List Op
ops = subscribes topic type_name 1 ∷ adds_remote topic 9 ∷ []

-- The one subscription that `ops` makes.
abbrev Subscribed : Bytes → Bytes → ℕ → Type 0
Subscribed t n s = (t ≡ topic) × (n ≡ type_name) × (s ≡ 1)

publish_reaches_type_example :
    (ls : List ℕ) × (rs : List ℕ) × ((publish everyone (run [] ops) topic type_name (5 ∷ [])).1
      ≡ enqueue_all (5 ∷ []) (ls ++ rs))
    × All (Subscribed topic type_name) ls
    × (rs ≡ remote_part everyone type_name (find topic (run [] ops)))
publish_reaches_type_example =
    publish_reaches_type Subscribed ops everyone topic type_name (5 ∷ [])
      (((refl, refl, refl), refl), (tt, tt))
