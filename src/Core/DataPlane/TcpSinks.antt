-- ===== src/Core/DataPlane/TcpSinks.antt =====
-- data_plane.cpp: what a TCP match and unmatch do to the counters and connections.
use mini_middleware.Prelude.{
  inl, inr, ℕ, ◌+◌, ◌-◌, ◌≡◌, refl, sym, ◌∙◌, ap, Bool, true, false, not, ◌&&◌, Option, none, some,
  ltb, ◌==◌, ==_iff, if◌then◌else◌, Bool-cases, Option-cases, bytes_key, nat_key, arith,
}
use mini_middleware.Prelude.Dict.{find, insert, erase, find-insert, find-erase}
use mini_middleware.Core.LocalBus.{remove_remote_sink}
use mini_middleware.Discovery.Endpoint.{MatchInfo, Locator}
use mini_middleware.Discovery.Agent.{match_key}
use mini_middleware.Core.DataPlane.{
  DataPlane, RemoteSink, tcp_pub_match, tcp_pub_remove, connection_for, disconnect, has_key,
  count_or_zero,
}
use mini_middleware.Core.DataPlane.Counters.{
  is_connected, joined-IsCounted, left-IsCounted, IsCounted,
}

pub connection_for-is_connected :
    (p : DataPlane) (pid : ℕ) (loc : Locator) (o : Option Locator) (i : ℕ)
    → find pid p.connections ≡ o
    → is_connected (find i (connection_for p pid loc o).0.connections)
      ≡ (if pid == i then true else is_connected (find i p.connections))
unfolding connection_for
connection_for-is_connected p pid loc none i e =
    ground (arith, find-insert pid i loc p.connections, ==_iff pid i)
connection_for-is_connected p pid loc (some c) i e = elim (Bool-cases (pid == i)) [
  | inr other ↦ rw other refl
  | inl same ↦ rw same (
      ap (λ k. is_connected (find k p.connections)) (sym ((==_iff pid i).0 same))
      ∙ ap is_connected e)
]

pub connection_for-Kept :
    (p : DataPlane) (pid : ℕ) (loc : Locator) (o : Option Locator)
    → ((connection_for p pid loc o).0.sinks ≡ p.sinks)
      × ((connection_for p pid loc o).0.refcount ≡ p.refcount)
unfolding connection_for
connection_for-Kept p pid loc none = (refl, refl)
connection_for-Kept p pid loc (some c) = (refl, refl)

pub tcp_pub_match-IsCounted :
    (p : DataPlane) (m : MatchInfo) → IsCounted p → IsCounted (tcp_pub_match p m).0
unfolding tcp_pub_match has_key
tcp_pub_match-IsCounted p m v = elim (Option-cases (find (match_key m) p.sinks)) [
  | inr (s, e) ↦ rw e v
  | inl e ↦
      let pid = m.remote_participant_id in
      let q = (connection_for p pid m.remote_locator (find pid p.connections)).0 in
      let (sinks_, counters) =
        connection_for-Kept p pid m.remote_locator (find pid p.connections) in
      rw e (
        joined-IsCounted p _ (match_key m)
          (record { sink = q.next_sink; topic = m.local.topic; peer = pid }) e
          (ap
            (insert (match_key m)
              (record { sink = q.next_sink; topic = m.local.topic; peer = pid }))
            sinks_)
          (ap (λ d. insert pid (count_or_zero (find pid d) + 1) d) counters)
          (λ i. connection_for-is_connected p pid m.remote_locator (find pid p.connections) i refl)
          v)
]

pub disconnect-is_connected :
    (p : DataPlane) (pid : ℕ) (o : Option Locator) (i : ℕ)
    → find pid p.connections ≡ o
    → is_connected (find i (disconnect p pid o).0.connections)
      ≡ (if pid == i then false else is_connected (find i p.connections))
unfolding disconnect
disconnect-is_connected p pid (some c) i e =
    ground (arith, find-erase pid i p.connections, ==_iff pid i)
disconnect-is_connected p pid none i e = elim (Bool-cases (pid == i)) [
  | inr other ↦ rw other refl
  | inl same ↦ rw same (
      ap (λ k. is_connected (find k p.connections)) (sym ((==_iff pid i).0 same))
      ∙ ap is_connected e)
]

pub disconnect-Kept :
    (p : DataPlane) (pid : ℕ) (o : Option Locator)
    → ((disconnect p pid o).0.sinks ≡ p.sinks) × ((disconnect p pid o).0.refcount ≡ p.refcount)
unfolding disconnect
disconnect-Kept p pid none = (refl, refl)
disconnect-Kept p pid (some c) = (refl, refl)

pub tcp_pub_remove-IsCounted :
    (p : DataPlane) (alive : ℕ → Bool) (m : MatchInfo) (s : RemoteSink)
    → find (match_key m) p.sinks ≡ some s
    → s.peer ≡ m.remote_participant_id
    → IsCounted p
    → IsCounted (tcp_pub_remove alive p m (some s)).0
unfolding tcp_pub_remove
tcp_pub_remove-IsCounted p alive m s e same v =
    let pid = m.remote_participant_id in
    let n = count_or_zero (find pid p.refcount) in
    let gone : DataPlane = record p {
      bus = remove_remote_sink alive p.bus m.local.topic s.sink;
      sinks = erase (match_key m) p.sinks;
      refcount = erase pid p.refcount;
    } in
    elim (Bool-cases (ltb 0 (n - 1))) [
      | inl more ↦ rw more (
          left-IsCounted p _ (match_key m) s e refl
            (λ i.
              ground
                (arith, same, ==_iff s.peer i, ==_iff pid i, find-insert pid i (n - 1) p.refcount))
            (λ i. kept i more) v)
      | inr last ↦
          let (sinks_, counters) = disconnect-Kept gone pid (find pid p.connections) in
          rw last (
            left-IsCounted p _ (match_key m) s e sinks_
              (λ i.
                ap (λ d. count_or_zero (find i d)) counters
                ∙ ground
                    (arith, same, last, ==_iff s.peer i, ==_iff pid i, find-erase pid i p.refcount))
              (λ i.
                disconnect-is_connected gone pid (find pid p.connections) i refl ∙ closed i last)
              v)
    ]
  where
    count_at :
        (i : ℕ)
        → (s.peer == i) ≡ true
        → count_or_zero (find m.remote_participant_id p.refcount)
          ≡ count_or_zero (find i p.refcount)
    count_at i here =
        ap (λ k. count_or_zero (find k p.refcount)) (sym same ∙ (==_iff s.peer i).0 here)

    kept :
        (i : ℕ)
        → ltb 0 (count_or_zero (find m.remote_participant_id p.refcount) - 1) ≡ true
        → is_connected (find i p.connections) ≡ (
            if s.peer == i && not (ltb 1 (count_or_zero (find i p.refcount)))
            then false
            else is_connected (find i p.connections))
    kept i more = elim (Bool-cases (s.peer == i)) [
      | inr other ↦ rw other refl
      | inl here ↦
          let several : ltb 1 (count_or_zero (find i p.refcount)) ≡ true =
            ground (arith, more, count_at i here) in
          rw (here, several) refl
    ]

    closed :
        (i : ℕ)
        → ltb 0 (count_or_zero (find m.remote_participant_id p.refcount) - 1) ≡ false
        → (if m.remote_participant_id == i then false else is_connected (find i p.connections)) ≡ (
            if s.peer == i && not (ltb 1 (count_or_zero (find i p.refcount)))
            then false
            else is_connected (find i p.connections))
    closed i last = elim (Bool-cases (s.peer == i)) [
      | inr other ↦
          let elsewhere : (m.remote_participant_id == i) ≡ false = ground (arith, other, same) in
          rw (other, elsewhere) refl
      | inl here ↦
          let at_peer : (m.remote_participant_id == i) ≡ true = ground (arith, here, same) in
          let single : ltb 1 (count_or_zero (find i p.refcount)) ≡ false =
            ground (arith, last, count_at i here) in
          rw (here, at_peer, single) refl
    ]
