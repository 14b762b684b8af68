-- ===== src/Core/Node/Links.antt =====
-- node.h: which endpoints of two nodes find each other.
use mini_middleware.Prelude.{
  ℕ, ◌≡◌, refl, List, [], ◌∷◌, ◌++◌, Bool, true, false, Option, Bytes, bytes_eq_refl, if◌then◌else◌,
  ◌==◌,
}
use mini_middleware.Common.Qos.{Qos, Reliability, best_effort, reliable, level, compatible}
use mini_middleware.Core.Node.{
  Node, create_service, create_client, register_replies, subscribes, endpoint, request_type,
  reply_type, client_id,
}
use mini_middleware.Prelude.Dict.{find}
use mini_middleware.Core.Rpc.{
  Handled, RpcRequest, handle_request, rpc_request_topic, rpc_reply_topic,
}
use mini_middleware.Core.Rpc.Calls.{handle_request-registered}
use mini_middleware.Discovery.Endpoint.{
  EndpointInfo, Locator, MatchInfo, publisher, subscriber, service, client,
}
use mini_middleware.Discovery.Agent.{add_endpoint}
use mini_middleware.Discovery.Matcher.{
  is_match, match_of, match_remotes, match_endpoints, rel_of, pubsub_pair, rpc_pair,
}

rel_of_level : (r : Reliability) → (if level r == 0 then best_effort else reliable) ≡ r
rel_of_level best_effort = refl
rel_of_level reliable = refl

module _ (topic type_name : Bytes) (q r : Qos) where
  publisher_meets_subscriber :
      is_match (endpoint publisher topic type_name q []) (endpoint subscriber topic type_name r [])
      ≡ compatible q.reliability r.reliability
  unfolding is_match rel_of
  publisher_meets_subscriber =
      rw
        (
          bytes_eq_refl topic,
          bytes_eq_refl type_name,
          rel_of_level q.reliability,
          rel_of_level r.reliability,
        )
        refl

  subscriber_meets_publisher :
      is_match (endpoint subscriber topic type_name q []) (endpoint publisher topic type_name r [])
      ≡ compatible r.reliability q.reliability
  unfolding is_match rel_of
  subscriber_meets_publisher =
      rw
        (
          bytes_eq_refl topic,
          bytes_eq_refl type_name,
          rel_of_level q.reliability,
          rel_of_level r.reliability,
        )
        refl

  service_meets_client :
      (resp : Bytes)
      → is_match (endpoint service topic type_name q resp) (endpoint client topic type_name r resp)
        ≡ compatible q.reliability r.reliability
  unfolding is_match rel_of
  service_meets_client resp =
      rw
        (
          bytes_eq_refl topic,
          bytes_eq_refl type_name,
          bytes_eq_refl resp,
          rel_of_level q.reliability,
          rel_of_level r.reliability,
        )
        refl

abbrev pub channel_if : Bool → MatchInfo → List MatchInfo
channel_if ok m = if ok then m ∷ [] else []

unpaired :
    (le re : EndpointInfo)
    → pubsub_pair le re ≡ false
    → rpc_pair le re ≡ false
    → is_match le re ≡ false
unfolding is_match
unpaired le re h k = simp (h, k) refl

-- What three endpoints find of three others, where only equal numbers may match.
diagonal :
    (a b c x y z : EndpointInfo) (i j k : Bool) (id : ℕ) (loc : Locator)
    → is_match a x ≡ i
    → is_match b z ≡ j
    → is_match c y ≡ k
    → (is_match a y ≡ false) × (is_match a z ≡ false)
    → (is_match b x ≡ false) × (is_match b y ≡ false)
    → (is_match c x ≡ false) × (is_match c z ≡ false)
    → match_endpoints (a ∷ b ∷ c ∷ []) id loc (x ∷ y ∷ z ∷ [])
      ≡ channel_if i (match_of a id loc x)
        ++ (channel_if j (match_of b id loc z) ++ channel_if k (match_of c id loc y))
unfolding match_endpoints match_remotes
diagonal a b c x y z i j k id loc ax bz cy (ay, az) (bx, by_) (cx, cz) =
    rw (ax, ay, az, bx, by_, bz, cx, cy, cz) (ends i j k)
  where
    ends :
        (i j k : Bool)
        → (if i then match_of a id loc x ∷ [] else [])
            ++ ((if j then match_of b id loc z ∷ [] else [])
                ++ ((if k then match_of c id loc y ∷ [] else []) ++ []))
          ≡ channel_if i (match_of a id loc x)
            ++ (channel_if j (match_of b id loc z) ++ channel_if k (match_of c id loc y))
    ends i j true = refl
    ends i j false = refl

-- A service and a client of one service name and one pair of types, on nodes with no other
-- endpoints, after the service has answered the client's request: the service's node finds the
-- request channel exactly if the client offers what the service asks for, the service's client and
-- the reply channel exactly if the service offers what the client asks for, and no other match.
pub service_links :
    {Q R : Type 0} (parse : Bytes → Option Q) (serialize : R → Option Bytes)
    (handler : Q → Handled R) (n m : Node) (service_name req resp : Bytes) (q r : Qos)
    (payload : Bytes) (id : ℕ) (loc : Locator)
    → n.discovery.local_endpoints ≡ []
    → m.discovery.local_endpoints ≡ []
    → let (s, answering) = create_service n service_name req resp q in
      let (c, calling) = create_client {R = R} m service_name req resp r in
      let request : RpcRequest = record {
        request_id = calling.next_request_id;
        reply_topic = calling.reply_topic;
        payload = payload;
      } in
      let found = (handle_request parse serialize handler answering request).1.registered in
      let offers_reply = compatible q.reliability r.reliability in
      match_endpoints
        (register_replies s q found).discovery.local_endpoints
        id
        loc
        c.discovery.local_endpoints
      ≡ channel_if (compatible r.reliability q.reliability) (
          match_of
            (endpoint subscriber (rpc_request_topic service_name) request_type q [])
            id
            loc
            (endpoint publisher (rpc_request_topic service_name) request_type r []))
        ++ (channel_if offers_reply (
              match_of
                (endpoint service service_name req q resp)
                id
                loc
                (endpoint client service_name req r resp))
            ++ channel_if offers_reply (
                match_of
                  (endpoint publisher calling.reply_topic reply_type q [])
                  id
                  loc
                  (endpoint subscriber calling.reply_topic reply_type r [])))
unfolding create_service create_client register_replies subscribes add_endpoint find client_id
service_links {R = R} parse serialize handler n m service_name req resp q r payload id loc none_n
      none_m =
    let reply_topic = rpc_reply_topic service_name (client_id m) in
    let request : RpcRequest = record {
      request_id = 1;
      reply_topic = reply_topic;
      payload = payload;
    } in
    let sub_ = endpoint subscriber (rpc_request_topic service_name) request_type q [] in
    let svc = endpoint service service_name req q resp in
    let replier = endpoint publisher reply_topic reply_type q [] in
    let requester = endpoint publisher (rpc_request_topic service_name) request_type r [] in
    let listener = endpoint subscriber reply_topic reply_type r [] in
    let cli = endpoint client service_name req r resp in
    rw
      (
        handle_request-registered parse serialize handler
            (create_service n service_name req resp q).1 request refl,
        none_n,
        none_m,
      )
      (diagonal sub_ svc replier requester listener cli (compatible r.reliability q.reliability)
        (compatible q.reliability r.reliability) (compatible q.reliability r.reliability) id loc
        (subscriber_meets_publisher (rpc_request_topic service_name) request_type q r)
        (service_meets_client service_name req q r resp)
        (publisher_meets_subscriber reply_topic reply_type q r)
        (unpaired sub_ listener refl refl, unpaired sub_ cli refl refl)
        (unpaired svc requester refl refl, unpaired svc listener refl refl)
        (unpaired replier requester refl refl, unpaired replier cli refl refl))
