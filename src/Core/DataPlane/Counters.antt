-- ===== src/Core/DataPlane/Counters.antt =====
-- data_plane.cpp: the counters of the TCP sinks, and the sinks that come and go.
use mini_middleware.Prelude.{
  ℕ, ◌+◌, ◌-◌, ◌≡◌, refl, sym, ◌∙◌, ap, subst, List, Bool, true, false, not, ◌&&◌, Option, none,
  some, Bytes, ltb, ◌==◌, ==_iff, if◌then◌else◌, either_branch, bytes_key, nat_key, arith,
}
use mini_middleware.Prelude.Dict.{Dict, find, insert, erase, find-insert}
use mini_middleware.Prelude.Counts.{
  bit, count_where, IsUnique, count_where-insert, count_where-erase, insert-IsUnique,
  erase-IsUnique,
}
use mini_middleware.Discovery.Endpoint.{Locator}
use mini_middleware.Core.DataPlane.{
  DataPlane, RemoteSink, ShmPub, shm_pub_add, shm_pub_remove, shm_sub_add, shm_sub_remove,
  count_or_zero, Effect,
}

-- The number of TCP sinks that lead to a participant.
abbrev pub sinks_to : ℕ → Dict Bytes RemoteSink → ℕ
sinks_to pid = count_where (λ (s : RemoteSink). s.peer == pid)

abbrev pub is_connected : Option Locator → Bool
is_connected none = false
is_connected (some c) = true

-- A participant's counter is the number of its sinks, and it has a connection if there are any.
pub record IsCounted (p : DataPlane) : Type 0 where
  pub unique : IsUnique p.sinks
  pub counts : (pid : ℕ) → count_or_zero (find pid p.refcount) ≡ sinks_to pid p.sinks
  pub connected : (pid : ℕ) → is_connected (find pid p.connections) ≡ ltb 0 (sinks_to pid p.sinks)

-- What the TCP routes are made of is the same.
abbrev pub Untouched : DataPlane → DataPlane → Type 0
Untouched p q = (q.sinks ≡ p.sinks) × (q.refcount ≡ p.refcount) × (q.connections ≡ p.connections)

pub Untouched-IsCounted : (p q : DataPlane) → Untouched p q → IsCounted p → IsCounted q
Untouched-IsCounted p q (s, r, c) v = record {
  unique = subst IsUnique (sym s) v.unique;
  counts = λ pid. ap (λ d. count_or_zero (find pid d)) r ∙ v.counts pid ∙ ap (sinks_to pid) (sym s);
  connected = λ pid.
      ap (λ d. is_connected (find pid d)) c
      ∙ v.connected pid
      ∙ ap (λ d. ltb 0 (sinks_to pid d)) (sym s);
}

pub shm_pub_add-Untouched :
    (p : DataPlane) (created : Bool) (topic : Bytes) (o : Option ShmPub)
    → Untouched p (shm_pub_add p created topic o).0
unfolding shm_pub_add
shm_pub_add-Untouched p created topic (some s) = (refl, refl, refl)
shm_pub_add-Untouched p true topic none = (refl, refl, refl)
shm_pub_add-Untouched p false topic none = (refl, refl, refl)

pub shm_sub_add-Untouched :
    (p : DataPlane) (topic name : Bytes) (o : Option ℕ) → Untouched p (shm_sub_add p topic name o).0
unfolding shm_sub_add
shm_sub_add-Untouched p topic name (some n) = (refl, refl, refl)
shm_sub_add-Untouched p topic name none =
    either_branch (λ (r : DataPlane × List Effect). Untouched p r.0) p.has_readers
      (refl, refl, refl) (refl, refl, refl)

pub shm_pub_remove-Untouched :
    (p : DataPlane) (alive : ℕ → Bool) (topic : Bytes) (o : Option ShmPub)
    → Untouched p (shm_pub_remove alive p topic o).0
unfolding shm_pub_remove
shm_pub_remove-Untouched p alive topic none = (refl, refl, refl)
shm_pub_remove-Untouched p alive topic (some s) =
    either_branch (λ (r : DataPlane × List Effect). Untouched p r.0) (ltb 0 (s.ref - 1))
      (refl, refl, refl) (refl, refl, refl)

pub shm_sub_remove-Untouched :
    (p : DataPlane) (name : Bytes) (o : Option ℕ) → Untouched p (shm_sub_remove p name o).0
unfolding shm_sub_remove
shm_sub_remove-Untouched p name none = (refl, refl, refl)
shm_sub_remove-Untouched p name (some n) =
    either_branch (λ (r : DataPlane × List Effect). Untouched p r.0) (ltb 0 (n - 1))
      (refl, refl, refl)
      (either_branch (λ (r : DataPlane × List Effect). Untouched p r.0) p.has_readers
        (refl, refl, refl) (refl, refl, refl))

-- A sink is added, and its participant has a connection.
pub joined-IsCounted :
    (p q : DataPlane) (key : Bytes) (s : RemoteSink)
    → find key p.sinks ≡ none
    → q.sinks ≡ insert key s p.sinks
    → q.refcount ≡ insert s.peer (count_or_zero (find s.peer p.refcount) + 1) p.refcount
    → ((i : ℕ)
        → is_connected (find i q.connections)
          ≡ (if s.peer == i then true else is_connected (find i p.connections)))
    → IsCounted p
    → IsCounted q
joined-IsCounted p q key s free es er ec v = record {
  unique = subst IsUnique (sym es) (insert-IsUnique key s p.sinks free v.unique);
  counts = λ i.
      ap (λ d. count_or_zero (find i d)) er
      ∙ ground (
        arith,
        find-insert s.peer i (count_or_zero (find s.peer p.refcount) + 1) p.refcount,
        v.counts i,
        ==_iff s.peer i,
        more i,
      );
  connected = λ i. ec i ∙ ground (arith, v.connected i, ==_iff s.peer i, more i);
}
  where
    more : (i : ℕ) → sinks_to i q.sinks ≡ bit (s.peer == i) + sinks_to i p.sinks
    more i =
        ap (sinks_to i) es ∙ count_where-insert (λ (t : RemoteSink). t.peer == i) key s p.sinks free

-- A sink is taken off, and with its participant's last one the connection goes.
pub left-IsCounted :
    (p q : DataPlane) (key : Bytes) (s : RemoteSink)
    → find key p.sinks ≡ some s
    → q.sinks ≡ erase key p.sinks
    → ((i : ℕ)
        → count_or_zero (find i q.refcount) ≡ count_or_zero (find i p.refcount) - bit (s.peer == i))
    → ((i : ℕ)
        → is_connected (find i q.connections) ≡ (
            if s.peer == i && not (ltb 1 (count_or_zero (find i p.refcount)))
            then false
            else is_connected (find i p.connections)))
    → IsCounted p
    → IsCounted q
left-IsCounted p q key s held_ es er ec v = record {
  unique = subst IsUnique (sym es) (erase-IsUnique key p.sinks v.unique);
  counts = λ i. omega (arith, er i, v.counts i, less i);
  connected = λ i. ec i ∙ ground (arith, v.connected i, v.counts i, ==_iff s.peer i, less i);
}
  where
    less : (i : ℕ) → sinks_to i p.sinks ≡ bit (s.peer == i) + sinks_to i q.sinks
    less i =
        count_where-erase (λ (t : RemoteSink). t.peer == i) key s p.sinks v.unique held_
        ∙ ap (λ d. bit (s.peer == i) + sinks_to i d) (sym es)
