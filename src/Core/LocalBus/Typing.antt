-- ===== src/Core/LocalBus/Typing.antt =====
-- local_bus.cpp: every call keeps the subscribers of a topic to the topic's type.
use mini_middleware.Prelude.{
  ℕ, ◌≡◌, refl, sym, ◌∙◌, ap, subst, inl, inr, List, [], ◌∷◌, ◌++◌, Bool, true, false, Option, none,
  some, Bytes, bytes_eq, bytes_eq_iff, if◌then◌else◌, bytes_key, Bool-cases, All, All-append,
  some_inj,
}
use mini_middleware.Prelude.Dict.{find, insert, find-insert}
use mini_middleware.Core.LocalBus.{
  TopicEntry, Bus, entry_or_empty, collect, is_empty, check_type, publish, publish_entry,
  register_publisher, deliver_inbound, inbound_entry, add_remote_sink, subscribe,
  remove_remote_sink, remove_entry, Op, registers, subscribes, publishes, adds_remote,
  removes_remote, delivers, step, run,
}

-- `P topic type_name sink` is a fact about the subscriptions that were made.
module _ (P : Bytes → Bytes → ℕ → Type 0) where
  -- The local subscribers of a topic asked for its type, which is set.
  abbrev pub EntryOk : Bytes → TopicEntry → Type 0
  EntryOk topic e = All (P topic e.type_name) e.sinks × (is_empty e.type_name ≡ true → e.sinks ≡ [])

  abbrev pub BusOk : Bus → Type 0
  BusOk bus = (topic : Bytes) (e : TopicEntry) → find topic bus ≡ some e → EntryOk topic e

  -- A subscription is one that `P` tells of, and its type is a name.
  abbrev pub OpOk : Op → Type 0
  OpOk (subscribes topic type_name sink) = P topic type_name sink × (is_empty type_name ≡ false)
  OpOk _ = Unit

  insert-BusOk :
      (bus : Bus) (topic : Bytes) (e : TopicEntry)
      → BusOk bus
      → EntryOk topic e
      → BusOk (insert topic e bus)
  insert-BusOk bus topic e h new other f found = elim (Bool-cases (bytes_eq topic other)) [
    | inl same ↦
        subst (λ (t : Bytes). EntryOk t f) ((bytes_eq_iff topic other).0 same)
          (subst (EntryOk topic)
            (some_inj (
              sym (ap (λ b. if b then some e else find other bus) same)
              ∙ sym (find-insert topic other e bus)
              ∙ found))
            new)
    | inr ne ↦ h other f (
        sym (ap (λ b. if b then some e else find other bus) ne)
        ∙ sym (find-insert topic other e bus)
        ∙ found)
  ]

  entry_or_empty-EntryOk :
      (bus : Bus) (topic : Bytes) → BusOk bus → EntryOk topic (entry_or_empty (find topic bus))
  entry_or_empty-EntryOk bus topic h = go (find topic bus) refl
    where
      go : (o : Option TopicEntry) → find topic bus ≡ o → EntryOk topic (entry_or_empty o)
      go none e = (tt, λ _. refl)
      go (some t) e = h topic t e

  pub collect-All :
      (Q : ℕ → Type 0) (alive : ℕ → Bool) (ss : List ℕ) → All Q ss → All Q (collect alive ss)
  unfolding collect
  collect-All Q alive [] h = tt
  collect-All Q alive (s ∷ ss) h = elim (Bool-cases (alive s)) [
    | inl e ↦ rw e (h.0, collect-All Q alive ss h.1)
    | inr e ↦ rw e (collect-All Q alive ss h.1)
  ]

  collect-EntryOk :
      (alive : ℕ → Bool) (topic : Bytes) (e : TopicEntry) (rs : List ℕ)
      → EntryOk topic e
      → EntryOk topic (record e { sinks = collect alive e.sinks; remote_sinks = rs })
  unfolding collect
  collect-EntryOk alive topic e rs h = (
    collect-All (P topic e.type_name) alive e.sinks h.0,
    λ none_yet. ap (collect alive) (h.1 none_yet),
  )

  -- Checking a type keeps the subscribers right, and says what type they have.
  check_type-EntryOk :
      (topic type_name : Bytes) (e : TopicEntry)
      → EntryOk topic e
      → EntryOk topic (check_type e type_name).0
        × ((check_type e type_name).1 ≡ true → (check_type e type_name).0.type_name ≡ type_name)
  unfolding check_type
  check_type-EntryOk topic type_name e h = elim (Bool-cases (is_empty e.type_name)) [
    | inl unset ↦
        simp unset
          ((subst (All (P topic type_name)) (sym (h.1 unset)) tt, λ _. h.1 unset), λ _. refl)
    | inr set_ ↦ elim (Bool-cases (bytes_eq e.type_name type_name)) [
      | inl same ↦
          simp (set_, same) ((h.0, λ f. cc), λ _. (bytes_eq_iff e.type_name type_name).0 same)
      | inr other ↦ simp (set_, other) ((h.0, λ f. cc), λ f. cc)
    ]
  ]

  register-BusOk :
      (bus : Bus) (topic type_name : Bytes)
      → BusOk bus
      → BusOk (register_publisher bus topic type_name)
  unfolding register_publisher
  register-BusOk bus topic type_name h =
      insert-BusOk bus topic _ h
        (check_type-EntryOk topic type_name (entry_or_empty (find topic bus))
          (entry_or_empty-EntryOk bus topic h)).0

  subscribed-EntryOk :
      (topic type_name : Bytes) (sink : ℕ) (e : TopicEntry) (ok : Bool)
      → EntryOk topic e
      → (ok ≡ true → e.type_name ≡ type_name)
      → P topic type_name sink
      → is_empty type_name ≡ false
      → EntryOk topic (if ok then record e { sinks = e.sinks ++ (sink ∷ []) } else e)
  subscribed-EntryOk topic type_name sink e false h t p named = h
  subscribed-EntryOk topic type_name sink e true h t p named = (
    All-append _ e.sinks (sink ∷ []) h.0
        (subst (λ (n : Bytes). P topic n sink) (sym (t refl)) p, tt),
    λ unset. cc (ap is_empty (t refl)),
  )

  subscribe-BusOk :
      (bus : Bus) (topic type_name : Bytes) (sink : ℕ)
      → BusOk bus
      → P topic type_name sink
      → is_empty type_name ≡ false
      → BusOk (subscribe bus topic type_name sink)
  unfolding subscribe
  subscribe-BusOk bus topic type_name sink h p named =
      let e = entry_or_empty (find topic bus) in
      let c = check_type-EntryOk topic type_name e (entry_or_empty-EntryOk bus topic h) in
      insert-BusOk bus topic _ h (
        subscribed-EntryOk topic type_name sink (check_type e type_name).0
          (check_type e type_name).1 c.0 c.1 p named)

  publish-BusOk :
      (alive : ℕ → Bool) (bus : Bus) (topic type_name bytes : Bytes)
      → BusOk bus
      → BusOk (publish alive bus topic type_name bytes).0
  unfolding publish
  publish-BusOk alive bus topic type_name bytes h = go (find topic bus) refl
    where
      go :
          (o : Option TopicEntry)
          → find topic bus ≡ o
          → BusOk (publish_entry alive bus topic type_name o bytes).0
      go none f = h
      go (some e) f =
          let c = check_type-EntryOk topic type_name e (h topic e f) in
          elim (Bool-cases (check_type e type_name).1) [
            | inl ok ↦ simp ok (
                insert-BusOk bus topic _ h (
                  collect-EntryOk alive topic (check_type e type_name).0
                    (collect alive (check_type e type_name).0.remote_sinks) c.0))
            | inr bad ↦ simp bad (insert-BusOk bus topic _ h c.0)
          ]

  remove-BusOk :
      (alive : ℕ → Bool) (bus : Bus) (topic : Bytes) (sink : ℕ)
      → BusOk bus
      → BusOk (remove_remote_sink alive bus topic sink)
  unfolding remove_remote_sink remove_entry
  remove-BusOk alive bus topic sink h = go (find topic bus) refl
    where
      go :
          (o : Option TopicEntry) → find topic bus ≡ o → BusOk (remove_entry alive bus topic o sink)
      go none f = h
      go (some e) f = insert-BusOk bus topic _ h (h topic e f)

  deliver-BusOk :
      (alive : ℕ → Bool) (bus : Bus) (topic bytes : Bytes)
      → BusOk bus
      → BusOk (deliver_inbound alive bus topic bytes).0
  unfolding deliver_inbound inbound_entry
  deliver-BusOk alive bus topic bytes h = go (find topic bus) refl
    where
      go :
          (o : Option TopicEntry)
          → find topic bus ≡ o
          → BusOk (inbound_entry alive bus topic o bytes).0
      go none f = h
      go (some e) f =
          insert-BusOk bus topic _ h (collect-EntryOk alive topic e e.remote_sinks (h topic e f))

  step-BusOk : (bus : Bus) (op : Op) → OpOk op → BusOk bus → BusOk (step bus op)
  unfolding step
  step-BusOk bus (registers topic type_name) o h = register-BusOk bus topic type_name h
  step-BusOk bus (subscribes topic type_name sink) o h =
      subscribe-BusOk bus topic type_name sink h o.0 o.1
  step-BusOk bus (publishes alive topic type_name bytes) o h =
      publish-BusOk alive bus topic type_name bytes h
  step-BusOk bus (adds_remote topic sink) o h =
      unfold add_remote_sink in insert-BusOk bus topic _ h (entry_or_empty-EntryOk bus topic h)
  step-BusOk bus (removes_remote alive topic sink) o h = remove-BusOk alive bus topic sink h
  step-BusOk bus (delivers alive topic bytes) o h = deliver-BusOk alive bus topic bytes h

  pub run-BusOk : (bus : Bus) (ops : List Op) → All OpOk ops → BusOk bus → BusOk (run bus ops)
  unfolding run
  run-BusOk bus [] o h = h
  run-BusOk bus (op ∷ ops) o h = run-BusOk (step bus op) ops o.1 (step-BusOk bus op o.0 h)

  pub empty-BusOk : BusOk []
  unfolding find
  empty-BusOk topic e f = cc
