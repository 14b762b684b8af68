-- ===== src/Transport/EndToEnd/Invariant.antt =====
-- End to end: what is not delivered yet is, in order, in the buffers and under way.
use mini_middleware.Prelude.{
  subst, some_inj, ℕ, zero, suc, ◌≡◌, refl, sym, ◌∙◌, ap, ap₂, inl, inr, List, [], ◌∷◌, ◌++◌,
  append_assoc, append-nil, Bool, true, false, some, Bytes, concat, arith, length, take, drop,
  take-append-drop, ltb, if◌then◌else◌, Bool-cases, Option-cases, nat_key, All-append,
}
use mini_middleware.Prelude.Dict.{find}
use mini_middleware.Transport.FrameCodec.{max_payload_size, encode}
use mini_middleware.Transport.FrameCodec.Frames.{IsPartial, stream, Fits}
use mini_middleware.Transport.FrameCodec.Streams.{Decoded, decode_front}
use mini_middleware.Transport.TcpServer.{ReadEnd, peer_closed, would_block, failed}
use mini_middleware.Transport.TcpServer.Reads.{
  ReadOutcome, handle_read_outcome, handle_read_unknown,
}
use mini_middleware.Transport.TcpServer
use mini_middleware.Transport.TcpServer.Lifecycle.{
  handle_event-find, handle_read-callback, handle_event-callback,
}
use mini_middleware.Transport.TcpClient
use mini_middleware.Transport.TcpClient.Buffers.{
  added, send-write_buffer, handle_event-append, stop-write_buffer, watch_readable-write_buffer,
}
use mini_middleware.Transport.EndToEnd.{
  System, Step, send, client_event, client_watches, client_stop, read, server_event,
}

-- The payloads that make a frame: `encode` gives no bytes for one over the limit.
abbrev pub carried : List Bytes → List Bytes
carried [] = []
carried (p ∷ ps) = if ltb max_payload_size (length p) then carried ps else p ∷ carried ps

carried-append : (ps qs : List Bytes) → carried (ps ++ qs) ≡ carried ps ++ carried qs
carried-append [] qs = refl
carried-append (p ∷ ps) qs = elim (Bool-cases (ltb max_payload_size (length p))) [
  | inl e ↦ rw e (carried-append ps qs)
  | inr e ↦ rw e (ap (◌∷◌ p) (carried-append ps qs))
]

Fits-carried : (ps : List Bytes) → Fits (carried ps)
Fits-carried [] = tt
Fits-carried (p ∷ ps) = elim (Bool-cases (ltb max_payload_size (length p))) [
  | inl e ↦ rw e (Fits-carried ps)
  | inr e ↦ rw e (ground arith, Fits-carried ps)
]

encode_over : (p : Bytes) → ltb max_payload_size (length p) ≡ true → encode p ≡ []
unfolding encode
encode_over p e = rw e

stream-carried : (p : Bytes) → encode p ≡ stream (carried (p ∷ []))
stream-carried p = elim (Bool-cases (ltb max_payload_size (length p))) [
  | inl e ↦ rw e (encode_over p e)
  | inr e ↦ rw e (sym (append-nil (encode p)))
]

stream-append : (ps qs : List Bytes) → stream (ps ++ qs) ≡ stream ps ++ stream qs
stream-append [] qs = refl
stream-append (p ∷ ps) qs =
    ap (◌++◌ (encode p)) (stream-append ps qs)
    ∙ sym (append_assoc (encode p) (stream ps) (stream qs))

-- The messages `todo` are not delivered yet; while the connection is open their frames are what is
-- in the server's buffer, under way, and in the client's buffer.
pub record Inv (fd : ℕ) (s : System) : Type 0 where
  pub todo : List Bytes
  pub order : carried s.sent ≡ s.delivered ++ todo
  pub fits : Fits todo
  pub callback : s.server.has_callback ≡ true
  pub open_ :
      (buf : Bytes)
      → find fd s.server.connection_buffers ≡ some buf
      → IsPartial buf × ((buf ++ s.in_flight) ++ s.client.write_buffer ≡ stream todo)

-- The buffered and new bytes are a front of the stream that waits.
decoded :
    (fd : ℕ) (s : System) (chunks : List Bytes) (rest buf : Bytes) (v : Inv fd s)
    → s.in_flight ≡ concat chunks ++ rest
    → find fd s.server.connection_buffers ≡ some buf
    → Decoded v.todo (buf ++ concat chunks) (rest ++ s.client.write_buffer)
decoded fd s chunks rest buf v e found =
    decode_front v.todo (buf ++ concat chunks) (rest ++ s.client.write_buffer) v.fits (
      simp append_assoc (
        ap (λ t. buf ++ t)
          (sym (append_assoc (concat chunks) rest s.client.write_buffer)
            ∙ ap (λ t. t ++ s.client.write_buffer) (sym e))
        ∙ sym (append_assoc buf s.in_flight s.client.write_buffer)
        ∙ (v.open_ buf found).1))

Fits-drop : (k : ℕ) (ps : List Bytes) → Fits ps → Fits (drop k ps)
Fits-drop zero ps h = h
Fits-drop (suc k) [] h = tt
Fits-drop (suc k) (p ∷ ps) h = Fits-drop k ps h.1

order_step :
    {all : List Bytes} (delivered todo msgs : List Bytes) (k : ℕ)
    → all ≡ delivered ++ todo
    → msgs ≡ take k todo
    → all ≡ (delivered ++ msgs) ++ drop k todo
order_step delivered todo msgs k e m =
    e
    ∙ ap (λ t. delivered ++ t) (sym (take-append-drop k todo))
    ∙ sym (append_assoc delivered (take k todo) (drop k todo))
    ∙ ap (λ t. (delivered ++ t) ++ drop k todo) (sym m)

order_same :
    {all : List Bytes} (delivered todo msgs : List Bytes)
    → all ≡ delivered ++ todo
    → msgs ≡ []
    → all ≡ (delivered ++ msgs) ++ todo
order_same delivered todo msgs e m = order_step delivered todo msgs 0 e m

abbrev after_read : ℕ → System → List Bytes → ReadEnd → Bytes → System
after_read fd s chunks end_ rest = record s {
  server = (TcpServer.handle_read s.server fd chunks end_).0;
  in_flight = rest;
  delivered = s.delivered ++ (TcpServer.handle_read s.server fd chunks end_).1.messages;
}

read_known-Inv :
    (fd : ℕ) (s : System) (chunks : List Bytes) (end_ : ReadEnd) (rest buf : Bytes) (v : Inv fd s)
    → Decoded v.todo (buf ++ concat chunks) (rest ++ s.client.write_buffer)
    → ReadOutcome fd (buf ++ concat chunks) end_ (TcpServer.handle_read s.server fd chunks end_)
    → Inv fd (after_read fd s chunks end_ rest)
read_known-Inv fd s chunks would_block rest buf v d out = record {
  todo = drop d.count v.todo;
  order = order_step s.delivered v.todo _ d.count v.order (out.0 ∙ ap (λ r. r.0) d.result);
  fits = Fits-drop d.count v.todo v.fits;
  callback = handle_read-callback s.server fd chunks would_block ∙ v.callback;
  open_ = λ b f.
      let same : d.left ≡ b = some_inj (sym (out.2 ∙ ap (λ r. some r.1) d.result) ∙ f) in
      subst
        (λ t. IsPartial t × ((t ++ rest) ++ s.client.write_buffer ≡ stream (drop d.count v.todo)))
        same (d.is_partial, append_assoc d.left rest s.client.write_buffer ∙ d.kept);
}
read_known-Inv fd s chunks peer_closed rest buf v d out = record {
  todo = drop d.count v.todo;
  order = order_step s.delivered v.todo _ d.count v.order (out.0 ∙ ap (λ r. r.0) d.result);
  fits = Fits-drop d.count v.todo v.fits;
  callback = handle_read-callback s.server fd chunks peer_closed ∙ v.callback;
  open_ = λ b f. cc (out.2);
}
read_known-Inv fd s chunks failed rest buf v d out = record {
  todo = v.todo;
  order = order_same s.delivered v.todo _ v.order out.0;
  fits = v.fits;
  callback = handle_read-callback s.server fd chunks failed ∙ v.callback;
  open_ = λ b f. cc (out.2);
}

read-Inv :
    (fd : ℕ) (s : System) (chunks : List Bytes) (end_ : ReadEnd) (rest : Bytes)
    → s.in_flight ≡ concat chunks ++ rest
    → Inv fd s
    → Inv fd (after_read fd s chunks end_ rest)
read-Inv fd s chunks end_ rest e v = elim (Option-cases (find fd s.server.connection_buffers)) [
  | inl unknown ↦
      let out = handle_read_unknown s.server fd chunks end_ unknown in
      record {
        todo = v.todo;
        order = order_same s.delivered v.todo _ v.order out.0;
        fits = v.fits;
        callback = handle_read-callback s.server fd chunks end_ ∙ v.callback;
        open_ = λ buf f. cc (out.1);
      }
  | inr (buf, found) ↦
      read_known-Inv fd s chunks end_ rest buf v (decoded fd s chunks rest buf v e found)
        (handle_read_outcome s.server fd buf chunks end_ v.callback found)
]

send-Inv :
    (fd : ℕ) (s : System) (p : Bytes) (done : Bool) (c : TcpClient.Client)
    → c.write_buffer ≡ s.client.write_buffer ++ added done p
    → Inv fd s
    → Inv fd (record s { client = c; sent = if done then s.sent ++ (p ∷ []) else s.sent })
send-Inv fd s p false c w v = record {
  todo = v.todo;
  order = v.order;
  fits = v.fits;
  callback = v.callback;
  open_ = λ buf f. (
    (v.open_ buf f).0,
    ap (λ t. (buf ++ s.in_flight) ++ t) (w ∙ append-nil s.client.write_buffer) ∙ (v.open_ buf f).1,
  );
}
send-Inv fd s p true c w v = record {
  todo = v.todo ++ carried (p ∷ []);
  order =
      carried-append s.sent (p ∷ [])
      ∙ ap (λ t. t ++ carried (p ∷ [])) v.order
      ∙ append_assoc s.delivered v.todo (carried (p ∷ []));
  fits = All-append _ v.todo (carried (p ∷ [])) v.fits (Fits-carried (p ∷ []));
  callback = v.callback;
  open_ = λ buf f. (
    (v.open_ buf f).0,
    ap (λ t. (buf ++ s.in_flight) ++ t) w
        ∙ sym (append_assoc (buf ++ s.in_flight) s.client.write_buffer (encode p))
        ∙ ap₂ ◌++◌ (v.open_ buf f).1 (stream-carried p)
        ∙ sym (stream-append v.todo (carried (p ∷ []))),
  );
}

pub Step-Inv : {fd : ℕ} {s t : System} → Step fd s t → Inv fd s → Inv fd t
Step-Inv {fd} {s} (send p) v =
    send-Inv fd s p (TcpClient.send s.client p).1 (TcpClient.send s.client p).0
      (send-write_buffer s.client p) v
Step-Inv {fd} {s} (client_event ev idle) v = record {
  todo = v.todo;
  order = v.order;
  fits = v.fits;
  callback = v.callback;
  open_ = λ buf f. (
    (v.open_ buf f).0,
    simp (append_assoc, handle_event-append s.client ev) (simp append_assoc at ((v.open_ buf f).1)),
  );
}
Step-Inv {fd} {s} (client_watches modified within) v = record {
  todo = v.todo;
  order = v.order;
  fits = v.fits;
  callback = v.callback;
  open_ = λ buf f. (
    (v.open_ buf f).0,
    ap (λ t. (buf ++ s.in_flight) ++ t) (watch_readable-write_buffer s.client modified)
        ∙ (v.open_ buf f).1,
  );
}
Step-Inv {fd} {s} client_stop v = record {
  todo = v.todo;
  order = v.order;
  fits = v.fits;
  callback = v.callback;
  open_ = λ buf f. (
    (v.open_ buf f).0,
    ap (λ t. (buf ++ s.in_flight) ++ t) (stop-write_buffer s.client) ∙ (v.open_ buf f).1,
  );
}
Step-Inv {fd} {s} (read chunks end_ rest e) v = read-Inv fd s chunks end_ rest e v
Step-Inv {fd} {s} (server_event ev ne fresh) v = record {
  todo = v.todo;
  order = v.order;
  fits = v.fits;
  callback = handle_event-callback s.server ev ∙ v.callback;
  open_ = λ buf f. v.open_ buf (sym (handle_event-find s.server fd ev ne fresh) ∙ f);
}
