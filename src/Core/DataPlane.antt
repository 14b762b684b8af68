-- ===== src/Core/DataPlane.antt =====
-- core/include/core/data_plane.h and core/src/data_plane.cpp, each call one step under the mutex. A
-- sink is a number, as in LocalBus, and a new one is given to each sink that is made; a connection
-- stands under the participant that it leads to. Counters go down to 0 and no further: the source
-- only asks whether they are above 0.
pub mod Routing
pub mod Counters
pub mod TcpSinks
pub mod Connections
pub mod OnBus
pub mod Placed
pub mod Places
use mini_middleware.Prelude.{
  ℕ, ◌+◌, ◌-◌, List, [], ◌∷◌, ◌++◌, map, Bool, true, false, ◌&&◌, ◌||◌, not, Option, none, some,
  Bytes, bytes_eq, codes, to_string, ltb, if◌then◌else◌, ◌==◌, nat_key, bytes_key,
}
use mini_middleware.Prelude.Dict.{Dict, find, insert, erase}
use mini_middleware.Core.LocalBus.{
  Bus, Delivery, add_remote_sink, remove_remote_sink, deliver_inbound,
}
use mini_middleware.Discovery.Endpoint.{
  EndpointInfo, Locator, MatchInfo, is_publisher, is_subscriber,
}
use mini_middleware.Discovery.Matcher.{pubsub_pair}
use mini_middleware.Discovery.Agent.{match_key}

pub record RemoteSink : Type 0 where
  pub sink : ℕ
  pub topic : Bytes
  pub peer : ℕ

pub record ShmPub : Type 0 where
  pub sink : ℕ
  pub ref : ℕ

pub record DataPlane : Type 0 where
  pub bus : Bus
  pub local_pid : ℕ
  pub local_host_id : Bytes
  pub shm_enabled : Bool
  pub connections : Dict ℕ Locator
  pub sinks : Dict Bytes RemoteSink
  pub refcount : Dict ℕ ℕ
  pub shm_pub : Dict Bytes ShmPub
  pub shm_sub_ref : Dict Bytes ℕ
  pub has_readers : Bool
  pub stopped : Bool
  pub next_sink : ℕ

-- The constructor, on a bus of its node.
unfoldable pub create_data_plane : Bus → DataPlane
create_data_plane bus = record {
  bus = bus;
  local_pid = 0;
  local_host_id = [];
  shm_enabled = true;
  connections = [];
  sinks = [];
  refcount = [];
  shm_pub = [];
  shm_sub_ref = [];
  has_readers = false;
  stopped = false;
  next_sink = 0;
}

-- What is done to transports, segments and readers. `null_dereference` stands for what the language
-- leaves undefined: a call through `shm_readers_` while it holds no object.
pub data Effect : Type 0 where
  connects : ℕ → Locator → Effect
  disconnects : ℕ → Effect
  creates_segment destroys_segment : Bytes → Effect
  adds_reader : Bytes → Bytes → Effect
  removes_reader : Bytes → Effect
  stops_readers : Effect
  null_dereference : Effect

-- `start`, for what starting the server gives: its port, or none, and then there are no readers.
unfoldable pub start : DataPlane → Option ℕ → DataPlane
start p none = p
start p (some port) = record p { has_readers = true }

-- '/', '.' and ' ' become '_'.
abbrev seg_char : ℕ → ℕ
seg_char c = if (c == b'/') || (c == b'.') || (c == b' ') then b'_' else c

unfoldable pub seg_name : ℕ → Bytes → Bytes
seg_name writer_pid topic = codes "/mm." ++ (to_string writer_pid ++ (b'.' ∷ map seg_char topic))

unfoldable pub set_local_identity : DataPlane → ℕ → Bytes → Bool → DataPlane
set_local_identity p pid host_id enable_shm = record p {
  local_pid = pid;
  local_host_id = host_id;
  shm_enabled = enable_shm;
}

abbrev is_empty : Bytes → Bool
is_empty [] = true
is_empty (b ∷ bs) = false

unfoldable pub same_host : DataPlane → MatchInfo → Bool
same_host p m =
    p.shm_enabled && not (is_empty p.local_host_id) && bytes_eq m.remote_host_id p.local_host_id

unfoldable pub use_shm : DataPlane → MatchInfo → Bool
use_shm p m =
    if not (same_host p m)
    then false
    else (if is_subscriber m.local.kind then m.local else m.remote).reliability == 0

has_key : {V : Type 0} → Option V → Bool
has_key none = false
has_key (some v) = true

pub connection_for : DataPlane → ℕ → Locator → Option Locator → DataPlane × List Effect
connection_for p pid loc none =
    (record p { connections = insert pid loc p.connections }, connects pid loc ∷ [])
connection_for p pid loc (some conn) = (p, [])

-- `refcount_[pid]`, which is 0 where there is no entry.
abbrev pub count_or_zero : Option ℕ → ℕ
count_or_zero none = 0
count_or_zero (some n) = n

pub tcp_pub_match : DataPlane → MatchInfo → DataPlane × List Effect
unfolding has_key connection_for
tcp_pub_match p m =
    let pid = m.remote_participant_id in
    let (q, effects) = connection_for p pid m.remote_locator (find pid p.connections) in
    (if has_key (find (match_key m) p.sinks) then (p, []) else (
      record q {
        bus = add_remote_sink q.bus m.local.topic q.next_sink;
        sinks =
            insert (match_key m) (record { sink = q.next_sink; topic = m.local.topic; peer = pid })
              q.sinks;
        refcount = insert pid (count_or_zero (find pid q.refcount) + 1) q.refcount;
        next_sink = q.next_sink + 1;
      },
      effects,
    ))

pub disconnect : DataPlane → ℕ → Option Locator → DataPlane × List Effect
disconnect p pid none = (p, [])
disconnect p pid (some conn) =
    (record p { connections = erase pid p.connections }, disconnects pid ∷ [])

pub tcp_pub_remove :
    (ℕ → Bool) → DataPlane → MatchInfo → Option RemoteSink → DataPlane × List Effect
unfolding disconnect
tcp_pub_remove alive p m none = (p, [])
tcp_pub_remove alive p m (some s) =
    let pid = m.remote_participant_id in
    let count = count_or_zero (find pid p.refcount) - 1 in
    let q = record p {
      bus = remove_remote_sink alive p.bus m.local.topic s.sink;
      sinks = erase (match_key m) p.sinks;
    } in
    (if ltb 0 count
      then (record q { refcount = insert pid count q.refcount }, [])
      else disconnect (record q { refcount = erase pid q.refcount }) pid (find pid q.connections))

tcp_pub_unmatch : (ℕ → Bool) → DataPlane → MatchInfo → DataPlane × List Effect
unfolding tcp_pub_remove
tcp_pub_unmatch alive p m = tcp_pub_remove alive p m (find (match_key m) p.sinks)

-- `created` says whether `ShmSegment::create` succeeds.
pub shm_pub_add : DataPlane → Bool → Bytes → Option ShmPub → DataPlane × List Effect
shm_pub_add p created topic (some s) =
    (record p { shm_pub = insert topic (record s { ref = s.ref + 1 }) p.shm_pub }, [])
shm_pub_add p created topic none = if not created then (p, []) else (
  record p {
    bus = add_remote_sink p.bus topic p.next_sink;
    shm_pub = insert topic (record { sink = p.next_sink; ref = 1 }) p.shm_pub;
    next_sink = p.next_sink + 1;
  },
  creates_segment (seg_name p.local_pid topic) ∷ [],
)

pub shm_pub_remove : (ℕ → Bool) → DataPlane → Bytes → Option ShmPub → DataPlane × List Effect
shm_pub_remove alive p topic none = (p, [])
shm_pub_remove alive p topic (some s) =
    if ltb 0 (s.ref - 1)
    then (record p { shm_pub = insert topic (record s { ref = s.ref - 1 }) p.shm_pub }, [])
    else (
      record p {
        bus = remove_remote_sink alive p.bus topic s.sink;
        shm_pub = erase topic p.shm_pub;
      },
      destroys_segment (seg_name p.local_pid topic) ∷ [],
    )

pub shm_sub_add : DataPlane → Bytes → Bytes → Option ℕ → DataPlane × List Effect
shm_sub_add p topic name (some n) =
    (record p { shm_sub_ref = insert name (n + 1) p.shm_sub_ref }, [])
shm_sub_add p topic name none =
    if p.has_readers
    then (record p { shm_sub_ref = insert name 1 p.shm_sub_ref }, adds_reader name topic ∷ [])
    else (p, null_dereference ∷ [])

pub shm_sub_remove : DataPlane → Bytes → Option ℕ → DataPlane × List Effect
shm_sub_remove p name none = (p, [])
shm_sub_remove p name (some n) =
    if ltb 0 (n - 1)
    then (record p { shm_sub_ref = insert name (n - 1) p.shm_sub_ref }, [])
    else if p.has_readers
    then (record p { shm_sub_ref = erase name p.shm_sub_ref }, removes_reader name ∷ [])
    else (p, null_dereference ∷ [])

unfoldable pub handle_match : DataPlane → Bool → MatchInfo → DataPlane × List Effect
unfolding tcp_pub_match shm_pub_add shm_sub_add
handle_match p created m =
    let name = seg_name m.remote_participant_id m.local.topic in
    (if p.stopped || not (pubsub_pair m.local m.remote)
      then (p, [])
      else if is_publisher m.local.kind
      then if use_shm p m
        then shm_pub_add p created m.local.topic (find m.local.topic p.shm_pub)
        else tcp_pub_match p m
      else if use_shm p m
      then shm_sub_add p m.local.topic name (find name p.shm_sub_ref)
      else (p, []))

unfoldable pub handle_unmatch : (ℕ → Bool) → DataPlane → MatchInfo → DataPlane × List Effect
unfolding tcp_pub_unmatch shm_pub_remove shm_sub_remove
handle_unmatch alive p m =
    let name = seg_name m.remote_participant_id m.local.topic in
    (if p.stopped || not (pubsub_pair m.local m.remote)
      then (p, [])
      else if is_publisher m.local.kind
      then if use_shm p m
        then shm_pub_remove alive p m.local.topic (find m.local.topic p.shm_pub)
        else tcp_pub_unmatch alive p m
      else if use_shm p m
      then shm_sub_remove p name (find name p.shm_sub_ref)
      else (p, []))

unfoldable pub stop : DataPlane → DataPlane × List Effect
stop p = (
  record p {
    has_readers = false;
    stopped = true;
    sinks = [];
    connections = [];
    refcount = [];
    shm_pub = [];
    shm_sub_ref = [];
  },
  map (λ (c : ℕ × Locator). disconnects c.0) p.connections
      ++ (map (λ (s : Bytes × ShmPub). destroys_segment (seg_name p.local_pid s.0)) p.shm_pub
          ++ (stops_readers ∷ [])),
)

-- A payload that parses as a DataMessage, a topic with a payload, goes to the local subscribers.
unfoldable pub on_inbound :
    (ℕ → Bool) → DataPlane → Option (Bytes × Bytes) → DataPlane × List Delivery
on_inbound alive p none = (p, [])
on_inbound alive p (some (topic, payload)) =
    let (bus, out) = deliver_inbound alive p.bus topic payload in (record p { bus = bus }, out)
