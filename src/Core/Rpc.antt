-- ===== src/Core/Rpc.antt =====
-- core/include/core/rpc_topics.h, client.h and service.h. Protobuf is a parameter: `parse` and
-- `serialize` of a message type. A call of the client is two steps, up to its publish and from the
-- end of its wait on; a reply that arrives is a step of its own.
pub mod Calls
use mini_middleware.Prelude.{
  ℕ, ◌+◌, ◌%◌, ◌^◌, List, [], ◌∷◌, ◌++◌, map, Bool, true, false, ◌&&◌, ◌||◌, not, Option, none,
  some, Bytes, codes, leb, if◌then◌else◌, ◌==◌, nat_key, bytes_key,
}
use mini_middleware.Prelude.Dict.{Dict, find, insert, erase}

abbrev is_alnum : ℕ → Bool
is_alnum c = (leb b'0' c && leb c b'9') || (leb b'A' c && leb c b'Z') || (leb b'a' c && leb c b'z')

abbrev sanitize_char : ℕ → ℕ
sanitize_char c = if is_alnum c then c else b'_'

strip_front : Bytes → Bytes
strip_front [] = []
strip_front (c ∷ s) = if c == b'_' then strip_front s else c ∷ s

strip_back : Bytes → Bytes
strip_back [] = []
strip_back (c ∷ s) = after c (strip_back s)
  where
    after : ℕ → Bytes → Bytes
    after c [] = if c == b'_' then [] else c ∷ []
    after c (d ∷ r) = c ∷ d ∷ r

or_default : Bytes → Bytes
or_default [] = codes "default"
or_default (c ∷ s) = c ∷ s

unfoldable pub rpc_sanitize_segment : Bytes → Bytes
unfolding strip_front strip_back or_default
rpc_sanitize_segment value = or_default (strip_back (strip_front (map sanitize_char value)))

unfoldable pub rpc_request_topic : Bytes → Bytes
rpc_request_topic service_name =
    codes "/_mm/rpc/" ++ (rpc_sanitize_segment service_name ++ codes "/request")

unfoldable pub rpc_reply_topic : Bytes → Bytes → Bytes
rpc_reply_topic service_name client_id =
    codes "/_mm/rpc/"
    ++ (rpc_sanitize_segment service_name ++ (codes "/reply/" ++ rpc_sanitize_segment client_id))

pub record RpcRequest : Type 0 where
  pub request_id : ℕ
  pub reply_topic : Bytes
  pub payload : Bytes

pub record RpcReply : Type 0 where
  pub request_id : ℕ
  pub ok : Bool
  pub payload : Bytes
  pub error : Bytes

pub record Pending (R : Type 0) : Type 0 where
  pub done : Bool
  pub response : Option R

pub record Client (R : Type 0) : Type 0 where
  pub reply_topic : Bytes
  pub next_request_id : ℕ
  pub pending : Dict ℕ (Pending R)

module _ {R : Type 0} where
  abbrev waiting : Pending R
  waiting = record { done = false; response = none }

  -- `call` up to its wait, for a request that serializes to `payload` or does not; `published` is
  -- what `publish` returns. The request, if there is one to wait for.
  unfoldable pub begin_call : Client R → Option Bytes → Bool → Client R × Option RpcRequest
  begin_call c none published = (c, none)
  begin_call c (some payload) published =
      let id = c.next_request_id in
      let taken = record c {
        next_request_id = (id + 1) % 2 ^ 64;
        pending = insert id waiting c.pending;
      } in
      (if published
        then (
          taken,
          some (record { request_id = id; reply_topic = c.reply_topic; payload = payload }),
        )
        else (record taken { pending = erase id taken.pending }, none))

  result_of : Option (Pending R) → Option R
  result_of none = none
  result_of (some p) = if p.done then p.response else none

  -- `call` from the end of its wait on, be it a reply or the timeout.
  unfoldable pub end_call : Client R → ℕ → Client R × Option R
  unfolding result_of
  end_call c id = (record c { pending = erase id c.pending }, result_of (find id c.pending))

  parse_reply : (Bytes → Option R) → RpcReply → Option R
  parse_reply parse r = if r.ok then parse r.payload else none

  complete : (Bytes → Option R) → Client R → RpcReply → Option (Pending R) → Client R
  unfolding parse_reply
  complete parse c r none = c
  complete parse c r (some p) = record c {
    pending =
        insert r.request_id (record { done = true; response = parse_reply parse r }) c.pending;
  }

  unfoldable pub handle_reply : (Bytes → Option R) → Client R → RpcReply → Client R
  unfolding complete
  handle_reply parse c r = complete parse c r (find r.request_id c.pending)

-- What the handler does: it returns, or throws a std::exception with its message, or another thing.
pub data Handled (R : Type 0) : Type 0 where
  returns : R → Handled R
  throws : Bytes → Handled R
  throws_unknown : Handled R

-- The reply topics that have a publisher.
pub record Service : Type 0 where
  pub has_registrar : Bool
  pub response_pubs : Dict Bytes Bool

-- What the service does: topics registered as endpoints, and the replies published on a topic.
pub record Replies : Type 0 where
  pub registered : List Bytes
  pub sent : List (Bytes × RpcReply)

publisher_for : Service → Bytes → Option Bool → Service × List Bytes
publisher_for s topic (some p) = (s, [])
publisher_for s topic none = (
  record s { response_pubs = insert topic true s.response_pubs },
  if s.has_registrar then topic ∷ [] else [],
)

unfoldable pub publish_reply : Service → RpcRequest → RpcReply → Service × Replies
unfolding publisher_for
publish_reply s req reply =
    let (t, registered) = publisher_for s req.reply_topic (find req.reply_topic s.response_pubs) in
    (t, record { registered = registered; sent = (req.reply_topic, reply) ∷ [] })

abbrev error_reply : RpcRequest → Bytes → RpcReply
error_reply req error = record {
  request_id = req.request_id;
  ok = false;
  payload = [];
  error = error;
}

serialized : RpcRequest → Option Bytes → RpcReply
serialized req none = error_reply req (codes "response serialize failed")
serialized req (some payload) = record {
  request_id = req.request_id;
  ok = true;
  payload = payload;
  error = [];
}

module _ {R : Type 0} where
  reply_to : (R → Option Bytes) → RpcRequest → Handled R → RpcReply
  unfolding serialized
  reply_to serialize req (returns resp) = serialized req (serialize resp)
  reply_to serialize req (throws what) = error_reply req what
  reply_to serialize req throws_unknown = error_reply req (codes "handler threw unknown exception")

module _ {Q R : Type 0} where
  answer : (R → Option Bytes) → (Q → Handled R) → RpcRequest → Option Q → RpcReply
  unfolding reply_to
  answer serialize handler req none = error_reply req (codes "request parse failed")
  answer serialize handler req (some q) = reply_to serialize req (handler q)

  unfoldable pub handle_request :
      (Bytes → Option Q)
      → (R → Option Bytes)
      → (Q → Handled R)
      → Service
      → RpcRequest
      → Service × Replies
  unfolding answer
  handle_request parse serialize handler s req =
      publish_reply s req (answer serialize handler req (parse req.payload))
