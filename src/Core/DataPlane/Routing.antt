-- ===== src/Core/DataPlane/Routing.antt =====
-- data_plane.cpp driven by the callbacks of discovery_agent.cpp: which matches have a TCP sink.
use mini_middleware.Prelude.{
  ℕ, ◌≡◌, refl, sym, ◌∙◌, ap, subst, List, [], ◌∷◌, Bool, true, false, ◌&&◌, not, Option, none,
  some, Bytes, bytes_eq, bytes_eq_iff, if◌then◌else◌, bytes_key, nat_key, arith,
}
use mini_middleware.Prelude.Dict.{Dict, find, find-insert, find-erase}
use mini_middleware.Discovery.Endpoint.{MatchInfo, is_publisher}
use mini_middleware.Discovery.Matcher.{pubsub_pair}
use mini_middleware.Discovery.Agent.{Agent, Op, run, Call, on_match, on_unmatch, match_key}
use mini_middleware.Discovery.Agent.Calls.{Matches, Accounts, Keyed, held, write_at}
use mini_middleware.Discovery.Agent.Alternation.{IsReady, calls_account_for_matches}
use mini_middleware.Core.DataPlane.{
  DataPlane, RemoteSink, handle_match, handle_unmatch, use_shm, same_host, tcp_pub_match,
  tcp_pub_unmatch, tcp_pub_remove, shm_pub_add, shm_pub_remove, shm_sub_add, shm_sub_remove,
  connection_for, disconnect, has_key,
}

-- A local publisher with a remote subscriber that asks for RELIABLE or does not share a host with
-- shared memory enabled.
abbrev pub over_tcp : DataPlane → MatchInfo → Bool
over_tcp p m = pubsub_pair m.local m.remote && is_publisher m.local.kind && not (use_shm p m)

-- The topic and the participant of a sink, and those that a match wants.
abbrev pub channel : Option RemoteSink → Option (Bytes × ℕ)
channel none = none
channel (some s) = some (s.topic, s.peer)

abbrev pub wanted : DataPlane → Option MatchInfo → Option (Bytes × ℕ)
wanted p none = none
wanted p (some m) = if over_tcp p m then some (m.local.topic, m.remote_participant_id) else none

-- The sinks are those that the matches want.
abbrev pub Follows : DataPlane → Matches → Type 0
Follows p f = (j : Bytes) → channel (find j p.sinks) ≡ wanted p (f j)

-- What chooses the route is the same.
abbrev pub Same : DataPlane → DataPlane → Type 0
Same p q =
    (q.stopped ≡ p.stopped) × (q.local_host_id ≡ p.local_host_id) × (q.shm_enabled ≡ p.shm_enabled)

use_shm-Same : (p q : DataPlane) (m : MatchInfo) → Same p q → use_shm q m ≡ use_shm p m
unfolding use_shm same_host
use_shm-Same p q m h = simp (h.1, h.2) refl

pub wanted-Same : (p q : DataPlane) (o : Option MatchInfo) → Same p q → wanted q o ≡ wanted p o
wanted-Same p q none h = refl
wanted-Same p q (some m) h = rw (use_shm-Same p q m h) refl

pub handle_match-Same :
    (p : DataPlane) (created : Bool) (m : MatchInfo) → Same p (handle_match p created m).0
unfolding handle_match tcp_pub_match shm_pub_add shm_sub_add connection_for
handle_match-Same p created m = ground arith

pub handle_unmatch-Same :
    (p : DataPlane) (alive : ℕ → Bool) (m : MatchInfo) → Same p (handle_unmatch alive p m).0
unfolding handle_unmatch tcp_pub_unmatch tcp_pub_remove shm_pub_remove shm_sub_remove disconnect
handle_unmatch-Same p alive m = ground arith

-- A match whose key has no sink: the sinks get the one that it wants.
handle_match-sinks :
    (p : DataPlane) (created : Bool) (m : MatchInfo)
    → p.stopped ≡ false
    → find (match_key m) p.sinks ≡ none
    → (j : Bytes)
    → channel (find j (handle_match p created m).0.sinks)
      ≡ (if bytes_eq (match_key m) j then wanted p (some m) else channel (find j p.sinks))
unfolding handle_match tcp_pub_match shm_pub_add shm_sub_add connection_for has_key
handle_match-sinks p created m h e j = ground (
  arith,
  h,
  e,
  bytes_eq_iff (match_key m) j,
  find-insert (match_key m) j
      (record { sink = p.next_sink; topic = m.local.topic; peer = m.remote_participant_id })
      p.sinks,
)

-- A match whose sink is the one that it wants: its key has no sink afterwards.
handle_unmatch-sinks :
    (p : DataPlane) (alive : ℕ → Bool) (m : MatchInfo)
    → p.stopped ≡ false
    → channel (find (match_key m) p.sinks) ≡ wanted p (some m)
    → (j : Bytes)
    → channel (find j (handle_unmatch alive p m).0.sinks)
      ≡ (if bytes_eq (match_key m) j then none else channel (find j p.sinks))
unfolding handle_unmatch tcp_pub_unmatch tcp_pub_remove shm_pub_remove shm_sub_remove disconnect
handle_unmatch-sinks p alive m h e j =
    ground (arith, h, e, bytes_eq_iff (match_key m) j, find-erase (match_key m) j p.sinks)

none_of_channel : (o : Option RemoteSink) → channel o ≡ none → o ≡ none
none_of_channel none e = refl
none_of_channel (some s) e = cc

pub match-Follows :
    (p : DataPlane) (created : Bool) (f : Matches) (m : MatchInfo)
    → p.stopped ≡ false
    → Follows p f
    → f (match_key m) ≡ none
    → Follows (handle_match p created m).0 (write_at f (match_key m) (some m))
match-Follows p created f m h v e j =
    let q = (handle_match p created m).0 in
    let free : find (match_key m) p.sinks ≡ none =
      none_of_channel (find (match_key m) p.sinks) (v (match_key m) ∙ ap (wanted p) e) in
    handle_match-sinks p created m h free j
    ∙ moved (bytes_eq (match_key m) j)
    ∙ sym (wanted-Same p q (write_at f (match_key m) (some m) j) (handle_match-Same p created m))
  where
    moved :
        (c : Bool)
        → (if c then wanted p (some m) else channel (find j p.sinks))
          ≡ wanted p (if c then some m else f j)
    moved true = refl
    moved false = v j

pub unmatch-Follows :
    (p : DataPlane) (alive : ℕ → Bool) (f : Matches) (m : MatchInfo)
    → p.stopped ≡ false
    → Follows p f
    → f (match_key m) ≡ some m
    → Follows (handle_unmatch alive p m).0 (write_at f (match_key m) none)
unmatch-Follows p alive f m h v e j =
    let q = (handle_unmatch alive p m).0 in
    handle_unmatch-sinks p alive m h (v (match_key m) ∙ ap (wanted p) e) j
    ∙ moved (bytes_eq (match_key m) j)
    ∙ sym (wanted-Same p q (write_at f (match_key m) none j) (handle_unmatch-Same p alive m))
  where
    moved :
        (c : Bool)
        → (if c then none else channel (find j p.sinks)) ≡ wanted p (if c then none else f j)
    moved true = refl
    moved false = v j

-- The data plane after the calls of the callbacks. Which segments can be created and which sinks
-- live may be different at each call; both are given by the calls from that one on.
unfoldable pub follow :
    (List Call → Bool) → (List Call → ℕ → Bool) → DataPlane → List Call → DataPlane
follow created alive p [] = p
follow created alive p (on_match m ∷ cs) =
    follow created alive (handle_match p (created (on_match m ∷ cs)) m).0 cs
follow created alive p (on_unmatch m ∷ cs) =
    follow created alive (handle_unmatch (alive (on_unmatch m ∷ cs)) p m).0 cs

pub follow-Follows :
    (created : List Call → Bool) (alive : List Call → ℕ → Bool) (cs : List Call) (p : DataPlane)
    (f g : Matches)
    → p.stopped ≡ false
    → Follows p f
    → Accounts f cs g
    → Follows (follow created alive p cs) g × Same p (follow created alive p cs)
unfolding follow
follow-Follows created alive [] p f g h v a = (λ j. v j ∙ ap (wanted p) (a j), (refl, refl, refl))
follow-Follows created alive (on_match m ∷ cs) p f g h v a =
    let c = created (on_match m ∷ cs) in
    let q = (handle_match p c m).0 in
    let s = handle_match-Same p c m in
    let (ih, same) =
      follow-Follows created alive cs q (write_at f (match_key m) (some m)) g (s.0 ∙ h)
        (match-Follows p c f m h v a.0) a.1 in
    (ih, (same.0 ∙ s.0, same.1 ∙ s.1, same.2 ∙ s.2))
follow-Follows created alive (on_unmatch m ∷ cs) p f g h v a =
    let l = alive (on_unmatch m ∷ cs) in
    let q = (handle_unmatch l p m).0 in
    let s = handle_unmatch-Same p l m in
    let (ih, same) =
      follow-Follows created alive cs q (write_at f (match_key m) none) g (s.0 ∙ h)
        (unmatch-Follows p l f m h v a.0) a.1 in
    (ih, (same.0 ∙ s.0, same.1 ∙ s.1, same.2 ∙ s.2))

pub no_sinks-Follows :
    (p : DataPlane) (f : Matches) → p.sinks ≡ [] → ((j : Bytes) → f j ≡ none) → Follows p f
unfolding find
no_sinks-Follows p f e h j =
    rw (h j) (subst (λ (d : Dict Bytes RemoteSink). channel (find j d) ≡ none) (sym e) refl)

pub empty_held : (d : Dict Bytes MatchInfo) → d ≡ [] → (j : Bytes) → held d j ≡ none
unfolding find
empty_held d e j = subst (λ (c : Dict Bytes MatchInfo). held c j ≡ none) (sym e) refl

-- Driven by an agent that starts with no match and has both callbacks set, a data plane that starts
-- with no sinks and is not stopped has, after any run, exactly the TCP sinks that the agent's active
-- matches want: one for each match of a local publisher with a remote subscriber that asks for
-- RELIABLE or does not share a host with shared memory enabled, with the match's topic and
-- participant, and none under any other key.
pub sinks_follow_matches :
    (created : List Call → Bool) (alive : List Call → ℕ → Bool) (p : DataPlane) (a : Agent)
    (ops : List Op)
    → p.stopped ≡ false
    → p.sinks ≡ []
    → a.active_matches ≡ []
    → a.has_on_match ≡ true
    → a.has_on_unmatch ≡ true
    → (j : Bytes)
    → channel (find j (follow created alive p (run a ops).1).sinks)
      ≡ wanted p (find j (run a ops).0.active_matches)
sinks_follow_matches created alive p a ops h e none_active on off j =
    let ready : IsReady a = record {
      keyed = subst Keyed (sym none_active) tt;
      on_match_set = on;
      on_unmatch_set = off;
    } in
    let accounts = calls_account_for_matches ops a ready in
    let (v, same) =
      follow-Follows created alive (run a ops).1 p (held a.active_matches)
        (held (run a ops).0.active_matches) h
        (no_sinks-Follows p (held a.active_matches) e (empty_held a.active_matches none_active))
        accounts in
    v j
    ∙ wanted-Same p (follow created alive p (run a ops).1) (find j (run a ops).0.active_matches)
        same
