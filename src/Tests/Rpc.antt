-- ===== src/Tests/Rpc.antt =====
-- client.h and service.h with numbers as messages.
use mini_middleware.Prelude.{
  ℕ, ◌+◌, ◌≡◌, refl, List, [], ◌∷◌, true, false, Option, none, some, Bytes, codes, arith, nat_key,
}
use mini_middleware.Prelude.Dict.{find}
use mini_middleware.Core.Rpc.{
  Client, RpcRequest, RpcReply, Handled, returns, Service, begin_call, end_call,
}
use mini_middleware.Core.Rpc.Calls.{
  Op, begins, ends, replies, run, last_answer, outcome, call_gets_its_reply,
}

-- A message is its first byte.
abbrev parse : Bytes → Option ℕ
parse [] = none
parse (b ∷ bs) = some b

abbrev serialize : ℕ → Option Bytes
serialize n = some (n ∷ [])

abbrev idle_client : Client ℕ
idle_client = record { reply_topic = codes "r"; next_request_id = 1; pending = [] }

abbrev reply_of : ℕ → ℕ → RpcReply
reply_of id n = record { request_id = id; ok = true; payload = n ∷ []; error = [] }

-- Another call begins, and its reply comes first.
abbrev interleaved : List Op
interleaved =
    begins (some []) true ∷ replies (reply_of 2 20) ∷ replies (reply_of 1 10) ∷ ends 2 ∷ []

call_gets_its_reply_example :
    (end_call (run parse (begin_call idle_client (some []) true).0 interleaved) 1).1
    ≡ outcome parse (last_answer parse 1 (record { done = false; response = none }) interleaved)
call_gets_its_reply_example =
    call_gets_its_reply parse idle_client [] interleaved (omega arith)
      (tt, (tt, (tt, (λ h. omega (arith, h), tt))))

abbrev waiting_client : Client ℕ
waiting_client = record idle_client {
  next_request_id = 2;
  pending = (1, record { done = false; response = none }) ∷ [];
}

abbrev request : RpcRequest
request = record { request_id = 1; reply_topic = codes "r"; payload = 7 ∷ [] }

abbrev double : ℕ → Handled ℕ
double n = returns (n + n)

abbrev service : Service
service = record { has_registrar = true; response_pubs = [] }

waiting_client-find :
    find request.request_id waiting_client.pending ≡ some (record { done = false; response = none })
unfolding find
waiting_client-find = refl
