-- ===== src/Core/DataPlane/Connections.antt =====
-- data_plane.cpp: the connections and their counters against the TCP sinks.
use mini_middleware.Prelude.{
  ℕ, ◌≡◌, refl, sym, ◌∙◌, ap, subst, List, [], ◌∷◌, Bool, true, false, not, ◌||◌, Option, none,
  some, Bytes, ltb, if◌then◌else◌, some_inj, either_branch, bytes_key, nat_key,
}
use mini_middleware.Prelude.Dict.{find}
use mini_middleware.Prelude.Counts.{IsUnique}
use mini_middleware.Discovery.Endpoint.{MatchInfo, is_publisher}
use mini_middleware.Discovery.Matcher.{pubsub_pair}
use mini_middleware.Discovery.Agent.{Agent, Op, run, Call, on_match, on_unmatch, match_key}
use mini_middleware.Discovery.Agent.Calls.{Matches, Accounts, Keyed, held, write_at}
use mini_middleware.Discovery.Agent.Alternation.{IsReady, calls_account_for_matches}
use mini_middleware.Core.DataPlane.Routing.{
  channel, wanted, over_tcp, Follows, follow, match-Follows, unmatch-Follows, handle_match-Same,
  handle_unmatch-Same, no_sinks-Follows, empty_held,
}
use mini_middleware.Core.DataPlane.{
  DataPlane, RemoteSink, handle_match, handle_unmatch, use_shm, tcp_pub_unmatch, tcp_pub_remove,
  count_or_zero, Effect, seg_name,
}
use mini_middleware.Core.DataPlane.Counters.{
  sinks_to, is_connected, Untouched-IsCounted, shm_pub_add-Untouched, shm_sub_add-Untouched,
  shm_pub_remove-Untouched, shm_sub_remove-Untouched, IsCounted,
}
use mini_middleware.Core.DataPlane.TcpSinks.{tcp_pub_match-IsCounted, tcp_pub_remove-IsCounted}

peer_of_channel :
    (s : RemoteSink) (b : Bool) (topic : Bytes) (pid : ℕ)
    → channel (some s) ≡ (if b then some (topic, pid) else none)
    → s.peer ≡ pid
peer_of_channel s true topic pid e = ap (λ (c : Bytes × ℕ). c.1) (some_inj e)
peer_of_channel s false topic pid e = cc

-- A match that has a sink only if it wants it.
tcp_pub_unmatch-IsCounted :
    (p : DataPlane) (alive : ℕ → Bool) (m : MatchInfo)
    → channel (find (match_key m) p.sinks) ≡ wanted p (some m)
    → IsCounted p
    → IsCounted (tcp_pub_unmatch alive p m).0
unfolding tcp_pub_unmatch tcp_pub_remove
tcp_pub_unmatch-IsCounted p alive m w v = go (find (match_key m) p.sinks) refl w
  where
    go :
        (o : Option RemoteSink)
        → find (match_key m) p.sinks ≡ o
        → channel o ≡ wanted p (some m)
        → IsCounted (tcp_pub_remove alive p m o).0
    go none e w = v
    go (some s) e w =
        tcp_pub_remove-IsCounted p alive m s e
          (peer_of_channel s (over_tcp p m) m.local.topic m.remote_participant_id w) v

-- Counting, of the first part of a result.
abbrev Counting : DataPlane × List Effect → Type 0
Counting r = IsCounted r.0

handle_match-IsCounted :
    (p : DataPlane) (created : Bool) (m : MatchInfo)
    → IsCounted p
    → IsCounted (handle_match p created m).0
unfolding handle_match
handle_match-IsCounted p created m v =
    let topic = m.local.topic in
    let name = seg_name m.remote_participant_id topic in
    either_branch Counting (p.stopped || not (pubsub_pair m.local m.remote)) v (
      either_branch Counting (is_publisher m.local.kind)
        (either_branch Counting (use_shm p m)
          (Untouched-IsCounted p _ (shm_pub_add-Untouched p created topic (find topic p.shm_pub)) v)
          (tcp_pub_match-IsCounted p m v))
        (either_branch Counting (use_shm p m)
          (Untouched-IsCounted p _ (shm_sub_add-Untouched p topic name (find name p.shm_sub_ref)) v)
          v))

handle_unmatch-IsCounted :
    (p : DataPlane) (alive : ℕ → Bool) (m : MatchInfo)
    → channel (find (match_key m) p.sinks) ≡ wanted p (some m)
    → IsCounted p
    → IsCounted (handle_unmatch alive p m).0
unfolding handle_unmatch
handle_unmatch-IsCounted p alive m w v =
    let topic = m.local.topic in
    let name = seg_name m.remote_participant_id topic in
    either_branch Counting (p.stopped || not (pubsub_pair m.local m.remote)) v (
      either_branch Counting (is_publisher m.local.kind)
        (either_branch Counting (use_shm p m)
          (Untouched-IsCounted p _ (shm_pub_remove-Untouched p alive topic (find topic p.shm_pub))
            v)
          (tcp_pub_unmatch-IsCounted p alive m w v))
        (either_branch Counting (use_shm p m)
          (Untouched-IsCounted p _ (shm_sub_remove-Untouched p name (find name p.shm_sub_ref)) v)
          v))

pub follow-IsCounted :
    (created : List Call → Bool) (alive : List Call → ℕ → Bool) (cs : List Call) (p : DataPlane)
    (f g : Matches)
    → p.stopped ≡ false
    → Follows p f
    → Accounts f cs g
    → IsCounted p
    → IsCounted (follow created alive p cs)
unfolding follow
follow-IsCounted created alive [] p f g h w a v = v
follow-IsCounted created alive (on_match m ∷ cs) p f g h w a v =
    let c = created (on_match m ∷ cs) in
    follow-IsCounted created alive cs (handle_match p c m).0 (write_at f (match_key m) (some m)) g
      ((handle_match-Same p c m).0 ∙ h) (match-Follows p c f m h w a.0) a.1
      (handle_match-IsCounted p c m v)
follow-IsCounted created alive (on_unmatch m ∷ cs) p f g h w a v =
    let l = alive (on_unmatch m ∷ cs) in
    follow-IsCounted created alive cs (handle_unmatch l p m).0 (write_at f (match_key m) none) g
      ((handle_unmatch-Same p l m).0 ∙ h) (unmatch-Follows p l f m h w a.0) a.1
      (handle_unmatch-IsCounted p l m (w (match_key m) ∙ ap (wanted p) a.0) v)

pub fresh-IsCounted :
    (p : DataPlane) → p.sinks ≡ [] → p.refcount ≡ [] → p.connections ≡ [] → IsCounted p
unfolding find
fresh-IsCounted p s r c = record {
  unique = subst IsUnique (sym s) tt;
  counts = λ pid. ap (λ d. count_or_zero (find pid d)) r ∙ sym (ap (sinks_to pid) s);
  connected =
      λ pid. ap (λ d. is_connected (find pid d)) c ∙ sym (ap (λ d. ltb 0 (sinks_to pid d)) s);
}

-- Driven by an agent that starts with no match and has both callbacks set, a data plane that starts
-- with no sinks, counters or connections and is not stopped has, after any run, for every
-- participant a counter that is the number of its TCP sinks, and a connection exactly if it has any.
pub connections_follow_sinks :
    (created : List Call → Bool) (alive : List Call → ℕ → Bool) (p : DataPlane) (a : Agent)
    (ops : List Op)
    → p.stopped ≡ false
    → p.sinks ≡ []
    → p.refcount ≡ []
    → p.connections ≡ []
    → a.active_matches ≡ []
    → a.has_on_match ≡ true
    → a.has_on_unmatch ≡ true
    → (pid : ℕ)
    → let q = follow created alive p (run a ops).1 in
      (count_or_zero (find pid q.refcount) ≡ sinks_to pid q.sinks)
      × (is_connected (find pid q.connections) ≡ ltb 0 (sinks_to pid q.sinks))
connections_follow_sinks created alive p a ops h s r c none_active on off pid =
    let ready : IsReady a = record {
      keyed = subst Keyed (sym none_active) tt;
      on_match_set = on;
      on_unmatch_set = off;
    } in
    let v =
      follow-IsCounted created alive (run a ops).1 p (held a.active_matches)
        (held (run a ops).0.active_matches) h
        (no_sinks-Follows p (held a.active_matches) s (empty_held a.active_matches none_active))
        (calls_account_for_matches ops a ready) (fresh-IsCounted p s r c) in
    (v.counts pid, v.connected pid)
