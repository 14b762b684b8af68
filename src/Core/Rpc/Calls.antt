-- ===== src/Core/Rpc/Calls.antt =====
-- client.h and service.h: which reply a call returns.
use mini_middleware.Prelude.{
  inl, inr, ℕ, ◌+◌, ◌^◌, ◌<◌, ◌≡◌, refl, ◌∙◌, ap, ◌≢◌, ◌⊎◌, List, [], ◌∷◌, Bool, true, false,
  Option, none, some, Bytes, length, All, if◌then◌else◌, ◌==◌, ==_iff, nat_key, bytes_key, arith,
  Option-cases,
}
use mini_middleware.Prelude.Dict.{find, insert, find-insert, find-erase}
use mini_middleware.Core.Rpc.{
  Client, Pending, RpcRequest, RpcReply, Handled, returns, Service, handle_request, publish_reply,
  publisher_for, answer, reply_to, serialized, begin_call, end_call, result_of, handle_reply,
  complete, parse_reply,
}

-- What happens to a client: another call begins or ends, a reply arrives.
pub data Op : Type 0 where
  begins : Option Bytes → Bool → Op
  ends : ℕ → Op
  replies : RpcReply → Op

module _ {R : Type 0} (parse : Bytes → Option R) where
  unfoldable pub run : Client R → List Op → Client R
  run c [] = c
  run c (begins payload published ∷ ops) = run (begin_call c payload published).0 ops
  run c (ends id ∷ ops) = run (end_call c id).0 ops
  run c (replies r ∷ ops) = run (handle_reply parse c r) ops

  -- What the last reply to `id` carries, or `before` if there is none.
  abbrev pub last_answer : ℕ → Pending R → List Op → Pending R
  last_answer id before [] = before
  last_answer id before (begins payload published ∷ ops) = last_answer id before ops
  last_answer id before (ends j ∷ ops) = last_answer id before ops
  last_answer id before (replies r ∷ ops) =
      last_answer id
        (if r.request_id == id
          then record { done = true; response = if r.ok then parse r.payload else none }
          else before)
        ops

  -- No other thread ends the call.
  abbrev pub Leaves : ℕ → Op → Type 0
  Leaves id (ends j) = j ≢ id
  Leaves id _ = Unit

  begin_call-find :
      (c : Client R) (payload : Option Bytes) (published : Bool) (id : ℕ)
      → c.next_request_id ≢ id
      → find id (begin_call c payload published).0.pending ≡ find id c.pending
  unfolding begin_call
  begin_call-find c none published id h = refl
  begin_call-find c (some payload) published id h = ground (
    arith,
    find-insert c.next_request_id id (record { done = false; response = none }) c.pending,
    find-erase c.next_request_id id
        (insert c.next_request_id (record { done = false; response = none }) c.pending),
  )

  begin_call-next :
      (c : Client R) (payload : Option Bytes) (published : Bool)
      → c.next_request_id + 1 < 2 ^ 64
      → (c.next_request_id ≡ (begin_call c payload published).0.next_request_id)
        ⊎ ((begin_call c payload published).0.next_request_id ≡ c.next_request_id + 1)
  unfolding begin_call
  begin_call-next c none published h = inl refl
  begin_call-next c (some payload) published h = ground arith

  handle_reply-find :
      (c : Client R) (r : RpcReply) (id : ℕ) (p : Pending R)
      → find id c.pending ≡ some p
      → find id (handle_reply parse c r).pending
        ≡ some (
            if r.request_id == id
            then record { done = true; response = if r.ok then parse r.payload else none }
            else p)
  unfolding handle_reply complete parse_reply
  handle_reply-find c r id p e = elim (Option-cases (find r.request_id c.pending)) [
    | inl none_there ↦ rw none_there (
        ground (
          arith,
          e,
          none_there,
          ==_iff r.request_id id,
          ap (λ j. find j c.pending) {x = r.request_id} {y = id},
        ))
    | inr (old, there) ↦ rw there (
        ground (
          arith,
          e,
          find-insert r.request_id id
              (record { done = true; response = if r.ok then parse r.payload else none }) c.pending,
        ))
  ]

  handle_reply-next :
      (c : Client R) (r : RpcReply) → (handle_reply parse c r).next_request_id ≡ c.next_request_id
  unfolding handle_reply
  handle_reply-next c r = go (find r.request_id c.pending)
    where
      go : (o : Option (Pending R)) → (complete parse c r o).next_request_id ≡ c.next_request_id
      go none = refl
      go (some p) = refl

  end_call-find :
      (c : Client R) (j id : ℕ) → j ≢ id → find id (end_call c j).0.pending ≡ find id c.pending
  unfolding end_call
  end_call-find c j id h = ground (arith, find-erase j id c.pending, h)

  end_call-next : (c : Client R) (j : ℕ) → (end_call c j).0.next_request_id ≡ c.next_request_id
  unfolding end_call
  end_call-next c j = refl

  run-find :
      (ops : List Op) (c : Client R) (id : ℕ) (p : Pending R)
      → find id c.pending ≡ some p
      → id < c.next_request_id
      → c.next_request_id + length ops < 2 ^ 64
      → All (Leaves id) ops
      → find id (run c ops).pending ≡ some (last_answer id p ops)
  unfolding run
  run-find [] c id p e h k l = e
  run-find (begins payload published ∷ ops) c id p e h k l =
      run-find ops (begin_call c payload published).0 id p
        (begin_call-find c payload published id (λ q. omega (arith, q, h)) ∙ e)
        (ground (arith, begin_call-next c payload published, h, k))
        (ground (arith, begin_call-next c payload published, h, k)) l.1
  run-find (ends j ∷ ops) c id p e h k l =
      run-find ops (end_call c j).0 id p (end_call-find c j id l.0 ∙ e)
        (omega (arith, h, end_call-next c j)) (omega (arith, k, end_call-next c j)) l.1
  run-find (replies r ∷ ops) c id p e h k l =
      run-find ops (handle_reply parse c r) id _ (handle_reply-find c r id p e)
        (omega (arith, h, handle_reply-next c r)) (omega (arith, k, handle_reply-next c r)) l.1

  -- What `call` makes of the reply it waited for.
  abbrev pub outcome : Pending R → Option R
  outcome p = if p.done then p.response else none

  end_call-outcome :
      (c : Client R) (id : ℕ) (p : Pending R)
      → find id c.pending ≡ some p
      → (end_call c id).1 ≡ outcome p
  unfolding end_call result_of
  end_call-outcome c id p e = rw e refl

  begin_call-waits :
      (c : Client R) (payload : Bytes)
      → c.next_request_id + 1 < 2 ^ 64
      → (find c.next_request_id (begin_call c (some payload) true).0.pending
          ≡ some (record { done = false; response = none }))
        × ((begin_call c (some payload) true).0.next_request_id ≡ c.next_request_id + 1)
  unfolding begin_call
  begin_call-waits c payload h = (
    ground (
      arith,
      find-insert c.next_request_id c.next_request_id (record { done = false; response = none })
          c.pending,
      ==_iff c.next_request_id c.next_request_id,
    ),
    omega (arith, h),
  )

  -- A published call returns what the last reply with its own request id carries, and nothing if
  -- there was none or that reply is not ok or does not parse, whatever other calls begin or end and
  -- whatever other replies arrive before it ends; as long as no id wraps around 64 bits.
  pub call_gets_its_reply :
      (c : Client R) (payload : Bytes) (ops : List Op)
      → c.next_request_id + 1 + length ops < 2 ^ 64
      → All (Leaves c.next_request_id) ops
      → (end_call (run (begin_call c (some payload) true).0 ops) c.next_request_id).1
        ≡ outcome (last_answer c.next_request_id (record { done = false; response = none }) ops)
  call_gets_its_reply c payload ops h l =
      let b = (begin_call c (some payload) true).0 in
      let (waits, next) = begin_call-waits c payload (omega (arith, h)) in
      end_call-outcome (run b ops) c.next_request_id _
        (run-find ops b c.next_request_id _ waits (omega (arith, next)) (omega (arith, h, next)) l)

-- A request that parses, whose handler returns a response that serializes and parses back, makes
-- the service publish exactly one reply, on the request's reply topic and with its id, and a call
-- that waits for that id returns the response.
pub handle_request-end_call :
    {Q R : Type 0} (parse_request : Bytes → Option Q) (serialize : R → Option Bytes)
    (parse_response : Bytes → Option R) (handler : Q → Handled R) (s : Service) (c : Client R)
    (req : RpcRequest) (q : Q) (r : R) (payload : Bytes) (p : Pending R)
    → parse_request req.payload ≡ some q
    → handler q ≡ returns r
    → serialize r ≡ some payload
    → parse_response payload ≡ some r
    → find req.request_id c.pending ≡ some p
    → (reply : RpcReply) × ((handle_request parse_request serialize handler s req).1.sent
        ≡ (req.reply_topic, reply) ∷ [])
      × (reply.request_id ≡ req.request_id)
      × ((end_call (handle_reply parse_response c reply) req.request_id).1 ≡ some r)
unfolding handle_request publish_reply answer reply_to serialized
handle_request-end_call parse_request serialize parse_response handler s c req q r payload p hq hh
      hs hr w =
    let reply : RpcReply = record {
      request_id = req.request_id;
      ok = true;
      payload = payload;
      error = [];
    } in
    (
      reply,
      rw (hq, hh, hs) refl,
      refl,
      end_call-outcome parse_response (handle_reply parse_response c reply) req.request_id _
            (handle_reply-find parse_response c reply req.request_id p w)
          ∙ ground (arith, hr, ==_iff req.request_id req.request_id),
    )

-- A service with a registrar registers the reply topic of a request as an endpoint if it
-- has not replied on that topic before.
pub handle_request-registered :
    {Q R : Type 0} (parse : Bytes → Option Q) (serialize : R → Option Bytes)
    (handler : Q → Handled R) (s : Service) (req : RpcRequest)
    → find req.reply_topic s.response_pubs ≡ none
    → (handle_request parse serialize handler s req).1.registered
      ≡ (if s.has_registrar then req.reply_topic ∷ [] else [])
unfolding handle_request publish_reply publisher_for
handle_request-registered parse serialize handler s req fresh = simp fresh refl
