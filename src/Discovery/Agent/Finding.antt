-- ===== src/Discovery/Agent/Finding.antt =====
-- discovery_agent.cpp: the keys of the matches that are found become active.
use mini_middleware.Prelude.{
  inl, inr, ℕ, ◌≡◌, ◌≢◌, refl, sym, ◌∙◌, ap, subst, List, [], ◌∷◌, Bool, true, false, Option, none,
  some, Bytes, bytes_eq_iff, ◌==◌, ==_iff, Has, bytes_key, nat_key, arith,
}
use mini_middleware.Prelude.Dict.{Dict, find, insert, find-insert}
use mini_middleware.Discovery.Endpoint.{EndpointInfo, ParticipantAnnouncement, MatchInfo}
use mini_middleware.Discovery.Matcher.{match_of, match_endpoints}
use mini_middleware.Discovery.Matcher.Rules.{Matches, match_endpoints_iff}
use mini_middleware.Discovery.Agent.{
  Agent, Remote, match_key, match_new, match_each, try_match, handle_announcement, rematch_each,
  rematch_all,
}

abbrev pub is_held : Option MatchInfo → Bool
is_held none = false
is_held (some m) = true

-- A match stands under this key.
abbrev pub IsActive : Bytes → Agent → Type 0
IsActive k a = is_held (find k a.active_matches) ≡ true

module _ (k : Bytes) where
  match_new-IsActive :
      (a : Agent) (m : MatchInfo) (o : Option MatchInfo)
      → IsActive k a
      → IsActive k (match_new a m o).0
  unfolding match_new
  match_new-IsActive a m none h = ground (arith, find-insert (match_key m) k m a.active_matches, h)
  match_new-IsActive a m (some old) h = h

  pub match_each-IsActive :
      (ms : List MatchInfo) (a : Agent) (host_id : Bytes)
      → IsActive k a
      → IsActive k (match_each a host_id ms).0
  unfolding match_each
  match_each-IsActive [] a host_id h = h
  match_each-IsActive (m ∷ ms) a host_id h =
      let m' = record m { remote_host_id = host_id } in
      let o = find (match_key m') a.active_matches in
      match_each-IsActive ms (match_new a m' o).0 host_id (match_new-IsActive a m' o h)

  pub rematch_each-IsActive :
      (rs : Dict ℕ Remote) (a : Agent) → IsActive k a → IsActive k (rematch_each a rs).0
  unfolding rematch_each try_match
  rematch_each-IsActive [] a h = h
  rematch_each-IsActive ((id, r) ∷ rs) a h = rematch_each-IsActive rs (try_match a id r).0 (
      match_each-IsActive (match_endpoints a.local_endpoints id r.locator r.endpoints) a r.host_id
        h)

match_new-finds :
    (a : Agent) (m : MatchInfo) (o : Option MatchInfo)
    → find (match_key m) a.active_matches ≡ o
    → IsActive (match_key m) (match_new a m o).0
unfolding match_new
match_new-finds a m none e = ground (
  arith,
  find-insert (match_key m) (match_key m) m a.active_matches,
  bytes_eq_iff (match_key m) (match_key m),
)
match_new-finds a m (some old) e = ap is_held e

match_each-finds :
    (ms : List MatchInfo) (a : Agent) (host_id : Bytes) (m : MatchInfo)
    → Has m ms
    → IsActive (match_key m) (match_each a host_id ms).0
unfolding match_each match_key
match_each-finds [] a host_id m h = elim h [ ]
match_each-finds (n ∷ ms) a host_id m (inl e) =
    let n' = record n { remote_host_id = host_id } in
    let o = find (match_key n') a.active_matches in
    subst (λ (x : MatchInfo). IsActive (match_key x) (match_each a host_id (n ∷ ms)).0) (sym e)
      (match_each-IsActive (match_key n') ms (match_new a n' o).0 host_id
        (match_new-finds a n' o refl))
match_each-finds (n ∷ ms) a host_id m (inr h) =
    let n' = record n { remote_host_id = host_id } in
    match_each-finds ms (match_new a n' (find (match_key n') a.active_matches)).0 host_id m h

-- The endpoints of an agent are its own to add.
match_new-local :
    (a : Agent) (m : MatchInfo) (o : Option MatchInfo)
    → (match_new a m o).0.local_endpoints ≡ a.local_endpoints
unfolding match_new
match_new-local a m none = refl
match_new-local a m (some old) = refl

match_each-local :
    (ms : List MatchInfo) (a : Agent) (host_id : Bytes)
    → (match_each a host_id ms).0.local_endpoints ≡ a.local_endpoints
unfolding match_each
match_each-local [] a host_id = refl
match_each-local (m ∷ ms) a host_id =
    let m' = record m { remote_host_id = host_id } in
    let o = find (match_key m') a.active_matches in
    match_each-local ms (match_new a m' o).0 host_id ∙ match_new-local a m' o

module _ (le re : EndpointInfo) (ok : Matches le re) where
  try_match-finds :
      (a : Agent) (id : ℕ) (r : Remote)
      → Has le a.local_endpoints
      → Has re r.endpoints
      → IsActive (match_key (match_of le id r.locator re)) (try_match a id r).0
  unfolding try_match
  try_match-finds a id r h k =
      let m = match_of le id r.locator re in
      match_each-finds (match_endpoints a.local_endpoints id r.locator r.endpoints) a r.host_id m (
        (match_endpoints_iff a.local_endpoints id r.locator r.endpoints m).1
          (le, re, h, k, ok, refl))

  rematch_each-finds :
      (rs : Dict ℕ Remote) (a : Agent) (id : ℕ) (r : Remote)
      → Has (id, r) rs
      → Has le a.local_endpoints
      → Has re r.endpoints
      → IsActive (match_key (match_of le id r.locator re)) (rematch_each a rs).0
  unfolding rematch_each try_match
  rematch_each-finds [] a id r h l k = elim h [ ]
  rematch_each-finds ((j, s) ∷ rs) a id r (inl e) l k =
      rematch_each-IsActive (match_key (match_of le id r.locator re)) rs (try_match a j s).0 (
        subst
          (λ (x : ℕ × Remote).
            IsActive (match_key (match_of le id r.locator re)) (try_match a x.0 x.1).0)
          e (try_match-finds a id r l k))
  rematch_each-finds ((j, s) ∷ rs) a id r (inr h) l k =
      rematch_each-finds rs (try_match a j s).0 id r h
        (subst (Has le)
          (sym (
            match_each-local (match_endpoints a.local_endpoints j s.locator s.endpoints) a
              s.host_id))
          l)
        k

-- The same for a participant that is known already, once the agent has gone through all of these,
-- which it does after an endpoint of its own is added.
pub rematch_all-finds :
    (a : Agent) (le re : EndpointInfo) (id : ℕ) (r : Remote)
    → Matches le re
    → Has le a.local_endpoints
    → Has (id, r) a.remotes
    → Has re r.endpoints
    → IsActive (match_key (match_of le id r.locator re)) (rematch_all a).0
unfolding rematch_all
rematch_all-finds a le re id r ok l h k = rematch_each-finds le re ok a.remotes a id r h l k

-- The key of each match with an announced endpoint is active.
pub announced-IsActive :
    (a : Agent) (now : ℕ) (ann : ParticipantAnnouncement) (le re : EndpointInfo)
    → ann.participant_id ≢ a.participant_id
    → Matches le re
    → Has le a.local_endpoints
    → Has re ann.endpoints
    → IsActive
        (match_key (match_of le ann.participant_id ann.data_locator re))
        (handle_announcement a now ann).0
unfolding handle_announcement
announced-IsActive a now ann le re other ok l k =
    let r : Remote = record {
      node_name = ann.node_name;
      endpoints = ann.endpoints;
      locator = ann.data_locator;
      host_id = ann.host_id;
      last_seen = now;
    } in
    let b = record a { remotes = insert ann.participant_id r a.remotes } in
    let not_own : (ann.participant_id == a.participant_id) ≡ false =
      ground (arith, ==_iff ann.participant_id a.participant_id, other) in
    simp not_own (try_match-finds le re ok b ann.participant_id r l k)
