-- ===== src/Core/DataPlane/Places.antt =====
-- data_plane.cpp driven by the callbacks of discovery_agent.cpp: the sinks stay on the bus.
use mini_middleware.Prelude.{
  ℕ, ◌+◌, ◌-◌, ◌≡◌, refl, ◌∙◌, List, [], ◌∷◌, Bool, true, false, not, ◌||◌, Option, none, some,
  Bytes, if◌then◌else◌, ltb, bytes_key, nat_key, arith,
}
use mini_middleware.Prelude.Dict.{find, insert}
use mini_middleware.Discovery.Endpoint.{MatchInfo, Locator, is_publisher}
use mini_middleware.Discovery.Matcher.{pubsub_pair}
use mini_middleware.Discovery.Agent.{Call, on_match, on_unmatch, match_key}
use mini_middleware.Core.DataPlane.{
  DataPlane, RemoteSink, ShmPub, Effect, handle_match, handle_unmatch, use_shm, tcp_pub_match,
  tcp_pub_unmatch, tcp_pub_remove, shm_pub_add, shm_pub_remove, shm_sub_add, shm_sub_remove,
  connection_for, disconnect, has_key, seg_name,
}
use mini_middleware.Core.LocalBus.{add_remote_sink}
use mini_middleware.Core.DataPlane.OnBus.{all_live, add_remote_sink-Grows}
use mini_middleware.Core.DataPlane.Placed.{
  IsPlaced, grown-IsPlaced, added-IsPlaced, removed-IsPlaced, shm_put-IsPlaced,
  shm_removed-IsPlaced,
}
use mini_middleware.Core.DataPlane.Routing.{follow}

abbrev pub Placed : DataPlane → Type 0
Placed p = IsPlaced p.bus p.sinks p.shm_pub p.next_sink

-- Either branch of a test.
if-Placed :
    (c : Bool) (x y : DataPlane × List Effect)
    → Placed x.0
    → Placed y.0
    → Placed (if c then x else y).0
if-Placed true x y v w = v
if-Placed false x y v w = w

tcp_pub_match-Placed : (p : DataPlane) (m : MatchInfo) → Placed p → Placed (tcp_pub_match p m).0
unfolding tcp_pub_match has_key
tcp_pub_match-Placed p m v =
    if-Placed (has_key (find (match_key m) p.sinks)) _ _ v
      (go (find m.remote_participant_id p.connections))
  where
    go :
        (o : Option Locator)
        → let q = (connection_for p m.remote_participant_id m.remote_locator o).0 in
          IsPlaced
            (add_remote_sink q.bus m.local.topic q.next_sink)
            (insert
              (match_key m)
              (record { sink = q.next_sink; topic = m.local.topic; peer = m.remote_participant_id })
              q.sinks)
            q.shm_pub
            (q.next_sink + 1)
    go none =
        added-IsPlaced p.bus p.sinks p.shm_pub p.next_sink (match_key m) m.local.topic
          m.remote_participant_id v
    go (some c) =
        added-IsPlaced p.bus p.sinks p.shm_pub p.next_sink (match_key m) m.local.topic
          m.remote_participant_id v

disconnect-Placed :
    (p : DataPlane) (pid : ℕ) (o : Option Locator) → Placed p → Placed (disconnect p pid o).0
unfolding disconnect
disconnect-Placed p pid none v = v
disconnect-Placed p pid (some c) v = v

tcp_pub_remove-Placed :
    (p : DataPlane) (m : MatchInfo) (o : Option RemoteSink)
    → find (match_key m) p.sinks ≡ o
    → Placed p
    → Placed (tcp_pub_remove all_live p m o).0
unfolding tcp_pub_remove
tcp_pub_remove-Placed p m none e v = v
tcp_pub_remove-Placed p m (some s) e v =
    let w =
      removed-IsPlaced p.bus p.sinks p.shm_pub p.next_sink (match_key m) m.local.topic s e v in
    if-Placed (ltb 0 _) _ _ w (disconnect-Placed _ m.remote_participant_id _ w)

shm_pub_add-Placed :
    (p : DataPlane) (created : Bool) (topic : Bytes) (o : Option ShmPub)
    → find topic p.shm_pub ≡ o
    → Placed p
    → Placed (shm_pub_add p created topic o).0
unfolding shm_pub_add
shm_pub_add-Placed p created topic (some s) e v =
    shm_put-IsPlaced p.bus p.sinks p.shm_pub p.next_sink topic (record s { ref = s.ref + 1 })
      (v.shm_below topic s e) (λ k t f. v.apart k topic t s f e) v
shm_pub_add-Placed p created topic none e v =
    let new : ShmPub = record { sink = p.next_sink; ref = 1 } in
    let bus = add_remote_sink p.bus topic p.next_sink in
    if-Placed (not created) _ _ v (
      shm_put-IsPlaced bus p.sinks p.shm_pub (p.next_sink + 1) topic new (omega arith)
        (λ k t f h. omega (arith, v.below k t f, h))
        (grown-IsPlaced p.bus bus p.sinks p.shm_pub p.next_sink (p.next_sink + 1)
          (add_remote_sink-Grows p.bus topic p.next_sink) (omega arith) v))

shm_pub_remove-Placed :
    (p : DataPlane) (topic : Bytes) (o : Option ShmPub)
    → find topic p.shm_pub ≡ o
    → Placed p
    → Placed (shm_pub_remove all_live p topic o).0
unfolding shm_pub_remove
shm_pub_remove-Placed p topic none e v = v
shm_pub_remove-Placed p topic (some s) e v =
    if-Placed (ltb 0 (s.ref - 1)) _ _
      (shm_put-IsPlaced p.bus p.sinks p.shm_pub p.next_sink topic (record s { ref = s.ref - 1 })
        (v.shm_below topic s e) (λ k t f. v.apart k topic t s f e) v)
      (shm_removed-IsPlaced p.bus p.sinks p.shm_pub p.next_sink topic s e v)

shm_sub_add-Placed :
    (p : DataPlane) (topic name : Bytes) (o : Option ℕ)
    → Placed p
    → Placed (shm_sub_add p topic name o).0
unfolding shm_sub_add
shm_sub_add-Placed p topic name (some n) v = v
shm_sub_add-Placed p topic name none v = if-Placed p.has_readers _ _ v v

shm_sub_remove-Placed :
    (p : DataPlane) (name : Bytes) (o : Option ℕ) → Placed p → Placed (shm_sub_remove p name o).0
unfolding shm_sub_remove
shm_sub_remove-Placed p name none v = v
shm_sub_remove-Placed p name (some n) v =
    if-Placed (ltb 0 (n - 1)) _ _ v (if-Placed p.has_readers _ _ v v)

handle_match-Placed :
    (p : DataPlane) (created : Bool) (m : MatchInfo)
    → Placed p
    → Placed (handle_match p created m).0
unfolding handle_match
handle_match-Placed p created m v =
    let name = seg_name m.remote_participant_id m.local.topic in
    if-Placed (p.stopped || not (pubsub_pair m.local m.remote)) _ _ v (
      if-Placed (is_publisher m.local.kind) _ _
        (if-Placed (use_shm p m) _ _
          (shm_pub_add-Placed p created m.local.topic (find m.local.topic p.shm_pub) refl v)
          (tcp_pub_match-Placed p m v))
        (if-Placed (use_shm p m) _ _
          (shm_sub_add-Placed p m.local.topic name (find name p.shm_sub_ref) v) v))

handle_unmatch-Placed :
    (p : DataPlane) (m : MatchInfo) → Placed p → Placed (handle_unmatch all_live p m).0
unfolding handle_unmatch tcp_pub_unmatch
handle_unmatch-Placed p m v =
    let name = seg_name m.remote_participant_id m.local.topic in
    if-Placed (p.stopped || not (pubsub_pair m.local m.remote)) _ _ v (
      if-Placed (is_publisher m.local.kind) _ _
        (if-Placed (use_shm p m) _ _
          (shm_pub_remove-Placed p m.local.topic (find m.local.topic p.shm_pub) refl v)
          (tcp_pub_remove-Placed p m (find (match_key m) p.sinks) refl v))
        (if-Placed (use_shm p m) _ _ (shm_sub_remove-Placed p name (find name p.shm_sub_ref) v) v))

pub follow-Placed :
    (created : List Call → Bool) (cs : List Call) (p : DataPlane)
    → Placed p
    → Placed (follow created (λ calls. all_live) p cs)
unfolding follow
follow-Placed created [] p v = v
follow-Placed created (on_match m ∷ cs) p v =
    follow-Placed created cs _ (handle_match-Placed p (created (on_match m ∷ cs)) m v)
follow-Placed created (on_unmatch m ∷ cs) p v =
    follow-Placed created cs _ (handle_unmatch-Placed p m v)

-- Whether there are readers is settled by the start.
handle_match-has_readers :
    (p : DataPlane) (created : Bool) (m : MatchInfo)
    → (handle_match p created m).0.has_readers ≡ p.has_readers
unfolding handle_match tcp_pub_match shm_pub_add shm_sub_add connection_for
handle_match-has_readers p created m = ground arith

handle_unmatch-has_readers :
    (p : DataPlane) (alive : ℕ → Bool) (m : MatchInfo)
    → (handle_unmatch alive p m).0.has_readers ≡ p.has_readers
unfolding handle_unmatch tcp_pub_unmatch tcp_pub_remove shm_pub_remove shm_sub_remove disconnect
handle_unmatch-has_readers p alive m = ground arith

pub follow-has_readers :
    (created : List Call → Bool) (alive : List Call → ℕ → Bool) (cs : List Call) (p : DataPlane)
    → (follow created alive p cs).has_readers ≡ p.has_readers
unfolding follow
follow-has_readers created alive [] p = refl
follow-has_readers created alive (on_match m ∷ cs) p =
    follow-has_readers created alive cs _ ∙ handle_match-has_readers p (created (on_match m ∷ cs)) m
follow-has_readers created alive (on_unmatch m ∷ cs) p =
    follow-has_readers created alive cs _
    ∙ handle_unmatch-has_readers p (alive (on_unmatch m ∷ cs)) m
