-- ===== src/Core/DataPlane/Placed.antt =====
-- data_plane.cpp: what holds between the data plane's tables of sinks and the bus.
use mini_middleware.Prelude.{
  ◌⊎◌, inl, inr, ℕ, ◌+◌, ◌≤◌, ◌<◌, ◌≡◌, ◌≢◌, sym, ◌∙◌, ap, subst, some_inj, [], none, some, Bytes,
  bytes_eq, bytes_eq_iff, Has, Bool-cases, bytes_key, nat_key, arith,
}
use mini_middleware.Prelude.Dict.{Dict, find, insert, erase, find-insert, find-erase}
use mini_middleware.Core.LocalBus.{Bus, add_remote_sink, remove_remote_sink}
use mini_middleware.Core.DataPlane.{RemoteSink, ShmPub}
use mini_middleware.Core.DataPlane.OnBus.{
  Grows, remotes_of, all_live, add_remote_sink-Grows, add_remote_sink-Has, remove_remote_sink-Has,
}

-- Each TCP sink of the table is on the bus under its topic; a sink stands under one key only, no
-- shared-memory sink is one of them, and all are below the next one's number.
pub record IsPlaced (bus : Bus) (sinks : Dict Bytes RemoteSink) (shm : Dict Bytes ShmPub) (next : ℕ)
    : Type 0 where
  pub on_bus :
      (k : Bytes) (s : RemoteSink) → find k sinks ≡ some s → Has s.sink (remotes_of bus s.topic)
  pub below : (k : Bytes) (s : RemoteSink) → find k sinks ≡ some s → s.sink < next
  pub distinct :
      (k j : Bytes) (s t : RemoteSink)
      → find k sinks ≡ some s
      → find j sinks ≡ some t
      → s.sink ≡ t.sink
      → k ≡ j
  pub shm_below : (k : Bytes) (x : ShmPub) → find k shm ≡ some x → x.sink < next
  pub apart :
      (k j : Bytes) (s : RemoteSink) (x : ShmPub)
      → find k sinks ≡ some s
      → find j shm ≡ some x
      → s.sink ≢ x.sink

none_is_not_some : {V : Type 0} (v : V) → none ≢ some v
none_is_not_some v e = cc

-- What stands under a key after an insertion: the new value, or an old one of another key.
insert-cases :
    {V : Type 0} (k j : Bytes) (v w : V) (d : Dict Bytes V)
    → find j (insert k v d) ≡ some w
    → ((k ≡ j) × (v ≡ w)) ⊎ ((k ≢ j) × (find j d ≡ some w))
insert-cases k j v w d e =
    let e' = sym (find-insert k j v d) ∙ e in
    elim (Bool-cases (bytes_eq k j)) [
      | inl same ↦
          let here : some v ≡ some w = rw same at e' in
          inl ((bytes_eq_iff k j).0 same, some_inj here)
      | inr other ↦
          let later : find j d ≡ some w = rw other at e' in
          inr ((λ same. ground (arith, other, (bytes_eq_iff k j).1 same)), later)
    ]

erase-cases :
    {V : Type 0} (k j : Bytes) (w : V) (d : Dict Bytes V)
    → find j (erase k d) ≡ some w
    → (k ≢ j) × (find j d ≡ some w)
erase-cases k j w d e =
    let e' = sym (find-erase k j d) ∙ e in
    elim (Bool-cases (bytes_eq k j)) [
      | inl same ↦ let here : none ≡ some w = rw same at e' in absurd (none_is_not_some w here)
      | inr other ↦
          let later : find j d ≡ some w = rw other at e' in
          ((λ same. ground (arith, other, (bytes_eq_iff k j).1 same)), later)
    ]

pub grown-IsPlaced :
    (bus bus' : Bus) (sinks : Dict Bytes RemoteSink) (shm : Dict Bytes ShmPub) (next next' : ℕ)
    → Grows bus bus'
    → next ≤ next'
    → IsPlaced bus sinks shm next
    → IsPlaced bus' sinks shm next'
grown-IsPlaced bus bus' sinks shm next next' g le v = record {
  on_bus = λ k s e. g s.topic s.sink (v.on_bus k s e);
  below = λ k s e. omega (arith, v.below k s e, le);
  distinct = v.distinct;
  shm_below = λ k x e. omega (arith, v.shm_below k x e, le);
  apart = v.apart;
}

-- A new TCP sink.
pub added-IsPlaced :
    (bus : Bus) (sinks : Dict Bytes RemoteSink) (shm : Dict Bytes ShmPub) (next : ℕ)
    (key topic : Bytes) (peer : ℕ)
    → IsPlaced bus sinks shm next
    → IsPlaced
        (add_remote_sink bus topic next)
        (insert key (record { sink = next; topic = topic; peer = peer }) sinks)
        shm
        (next + 1)
added-IsPlaced bus sinks shm next key topic peer v =
    let new : RemoteSink = record { sink = next; topic = topic; peer = peer } in
    record {
      on_bus = λ k s e. elim (insert-cases key k new s sinks e) [
        | inl (same, is) ↦
            subst
              (λ (s : RemoteSink). Has s.sink (remotes_of (add_remote_sink bus topic next) s.topic))
              is (add_remote_sink-Has bus topic next)
        | inr (other, old) ↦ add_remote_sink-Grows bus topic next s.topic s.sink (v.on_bus k s old)
      ];
      below = λ k s e. elim (insert-cases key k new s sinks e) [
        | inl (same, is) ↦ omega (arith, ap (λ (s : RemoteSink). s.sink) is)
        | inr (other, old) ↦ omega (arith, v.below k s old)
      ];
      distinct = λ k j s t e f h. elim (insert-cases key k new s sinks e) [
        | inl (same, is) ↦ elim (insert-cases key j new t sinks f) [
          | inl (same', is') ↦ sym same ∙ same'
          | inr (other', old') ↦
              absurd (omega (arith, ap (λ (s : RemoteSink). s.sink) is, v.below j t old', h))
        ]
        | inr (other, old) ↦ elim (insert-cases key j new t sinks f) [
          | inl (same', is') ↦
              absurd (omega (arith, ap (λ (s : RemoteSink). s.sink) is', v.below k s old, h))
          | inr (other', old') ↦ v.distinct k j s t old old' h
        ]
      ];
      shm_below = λ k x e. omega (arith, v.shm_below k x e);
      apart = λ k j s x e f h. elim (insert-cases key k new s sinks e) [
        | inl (same, is) ↦ omega (arith, ap (λ (s : RemoteSink). s.sink) is, v.shm_below j x f, h)
        | inr (other, old) ↦ v.apart k j s x old f h
      ];
    }

-- A TCP sink that goes.
pub removed-IsPlaced :
    (bus : Bus) (sinks : Dict Bytes RemoteSink) (shm : Dict Bytes ShmPub) (next : ℕ)
    (key topic : Bytes) (s : RemoteSink)
    → find key sinks ≡ some s
    → IsPlaced bus sinks shm next
    → IsPlaced (remove_remote_sink all_live bus topic s.sink) (erase key sinks) shm next
removed-IsPlaced bus sinks shm next key topic s there v = record {
  on_bus = λ k t e.
      let (other, old) = erase-cases key k t sinks e in
      remove_remote_sink-Has bus topic s.sink t.topic t.sink
        (λ h. other (v.distinct key k s t there old (sym h))) (v.on_bus k t old);
  below = λ k t e. v.below k t (erase-cases key k t sinks e).1;
  distinct = λ k j t u e f.
      v.distinct k j t u (erase-cases key k t sinks e).1 (erase-cases key j u sinks f).1;
  shm_below = v.shm_below;
  apart = λ k j t x e. v.apart k j t x (erase-cases key k t sinks e).1;
}

-- A shared-memory sink that is not one of the TCP sinks, new or with another count.
pub shm_put-IsPlaced :
    (bus : Bus) (sinks : Dict Bytes RemoteSink) (shm : Dict Bytes ShmPub) (next : ℕ) (topic : Bytes)
    (new : ShmPub)
    → new.sink < next
    → ((k : Bytes) (s : RemoteSink) → find k sinks ≡ some s → s.sink ≢ new.sink)
    → IsPlaced bus sinks shm next
    → IsPlaced bus sinks (insert topic new shm) next
shm_put-IsPlaced bus sinks shm next topic new lt free v = record {
  on_bus = v.on_bus;
  below = v.below;
  distinct = v.distinct;
  shm_below = λ k x e. elim (insert-cases topic k new x shm e) [
    | inl (same, is) ↦ subst (λ (x : ShmPub). x.sink < next) is lt
    | inr (other, old) ↦ v.shm_below k x old
  ];
  apart = λ k j s x e f. elim (insert-cases topic j new x shm f) [
    | inl (same, is) ↦ subst (λ (x : ShmPub). s.sink ≢ x.sink) is (free k s e)
    | inr (other, old) ↦ v.apart k j s x e old
  ];
}

pub shm_removed-IsPlaced :
    (bus : Bus) (sinks : Dict Bytes RemoteSink) (shm : Dict Bytes ShmPub) (next : ℕ) (topic : Bytes)
    (x : ShmPub)
    → find topic shm ≡ some x
    → IsPlaced bus sinks shm next
    → IsPlaced (remove_remote_sink all_live bus topic x.sink) sinks (erase topic shm) next
shm_removed-IsPlaced bus sinks shm next topic x there v = record {
  on_bus = λ k s e.
      remove_remote_sink-Has bus topic x.sink s.topic s.sink (v.apart k topic s x e there)
        (v.on_bus k s e);
  below = v.below;
  distinct = v.distinct;
  shm_below = λ k y e. v.shm_below k y (erase-cases topic k y shm e).1;
  apart = λ k j s y e f. v.apart k j s y e (erase-cases topic j y shm f).1;
}

pub empty-IsPlaced : (bus : Bus) (next : ℕ) → IsPlaced bus [] [] next
unfolding find
empty-IsPlaced bus next = record {
  on_bus = λ k s e. absurd (none_is_not_some s e);
  below = λ k s e. absurd (none_is_not_some s e);
  distinct = λ k j s t e f h. absurd (none_is_not_some s e);
  shm_below = λ k x e. absurd (none_is_not_some x e);
  apart = λ k j s x e f h. none_is_not_some s e;
}
