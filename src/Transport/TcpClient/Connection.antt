-- ===== src/Transport/TcpClient/Connection.antt =====
-- tcp_client_transport.cpp: what epoll watches for.
use mini_middleware.Prelude.{
  ◌≡◌, refl, sym, ◌∙◌, ◌⊎◌, inl, inr, List, [], ◌∷◌, Bool, true, false, Bytes, arith, Bool-cases,
  subst, if◌then◌else◌,
}
use mini_middleware.Transport.TcpServer.{ReadEnd, peer_closed, would_block, failed}
use mini_middleware.Transport.TcpClient.{
  Client, ConnectionState, disconnected, connecting, connected, Interest, send, send_in,
  send_connected, stop, handle_write, interest_after, write_loop, WriteResult, handle_read,
  read_end, handle_event, event_in, connected_event, handle_connect_complete, watch_readable, Event,
}

-- Bytes wait to be written only on a connection that is watched for writing, or that was stopped.
abbrev pub Watched : ConnectionState → Bytes → Interest → Type 0
Watched connected buffer i = (buffer ≡ []) ⊎ (i.writable ≡ true)
Watched connecting buffer i = buffer ≡ []
Watched disconnected buffer i = Unit

-- None waits before the end of `handle_connect_complete`.
abbrev pub IsWatched : Client → Type 0
IsWatched c =
    Watched c.state c.write_buffer c.interest × (c.completing ≡ true → c.write_buffer ≡ [])

-- A call of `send` or `stop`, an event of the epoll thread, or the end of its
-- `handle_connect_complete`, with what epoll_ctl returns.
pub data Op : Type 0 where
  sends : Bytes → Op
  stops : Op
  handles : Event → Op
  watches : Bool → Op

-- The epoll thread takes the next event only once it is through with the last.
unfoldable pub step : Client → Op → Client
step c (sends p) = (send c p).0
step c stops = stop c
step c (handles ev) = if c.completing then c else (handle_event c ev).0
step c (watches modified) = if c.completing then watch_readable c modified else c

unfoldable pub run : Client → List Op → Client
run c [] = c
run c (op ∷ ops) = run (step c op) ops

-- Other threads call `send` only outside of the two steps of `handle_connect_complete`.
abbrev pub IsApart : Client → Op → Type 0
IsApart c (sends p) = c.completing ≡ false
IsApart c _ = Unit

abbrev pub AllApart : Client → List Op → Type 0
AllApart c [] = Unit
AllApart c (op ∷ ops) = IsApart c op × AllApart (step c op) ops

send-IsWatched :
    (c : Client) (p : Bytes) → c.completing ≡ false → IsWatched c → IsWatched (send c p).0
unfolding send send_in send_connected
send-IsWatched c p f v = ground (arith, v, f)

stop-IsWatched : (c : Client) → IsWatched c → IsWatched (stop c)
unfolding stop
stop-IsWatched c v = elim (Bool-cases c.stopped) [ inl e ↦ simp e v | inr e ↦ simp e (tt, λ f. cc) ]

interest_after-watches :
    (i : Interest) (buffer left : Bytes)
    → (buffer ≡ []) ⊎ (i.writable ≡ true)
    → (buffer ≡ [] → left ≡ [])
    → (left ≡ []) ⊎ ((interest_after i left).writable ≡ true)
unfolding interest_after
interest_after-watches i buffer [] v h = inl refl
interest_after-watches i buffer (b ∷ left) (inl e) h = inl (h e)
interest_after-watches i buffer (b ∷ left) (inr w) h = inr w

write_loop-nil :
    (buffer : Bytes) (rs : List WriteResult) → buffer ≡ [] → (write_loop buffer rs).left ≡ []
unfolding write_loop
write_loop-nil [] rs e = refl
write_loop-nil (b ∷ bs) rs e = cc

write-Watched :
    (c : Client) (rs : List WriteResult)
    → c.state ≡ connected
    → Watched c.state c.write_buffer c.interest
    → let d = (handle_write c rs).0 in Watched d.state d.write_buffer d.interest
unfolding handle_write
write-Watched c rs e v =
    let d = (handle_write c rs).0 in
    subst (λ st. Watched st d.write_buffer d.interest) (sym e)
      (interest_after-watches c.interest c.write_buffer (write_loop c.write_buffer rs).left
        (subst (λ st. Watched st c.write_buffer c.interest) e v) (write_loop-nil c.write_buffer rs))

write_if-Watched :
    (c : Client) (out : Bool) (rs : List WriteResult)
    → c.state ≡ connected
    → Watched c.state c.write_buffer c.interest
    → let d = (if out then handle_write c rs else (c, [])).0 in
      Watched d.state d.write_buffer d.interest × (d.completing ≡ c.completing)
unfolding handle_write
write_if-Watched c true rs e v = (write-Watched c rs e v, refl)
write_if-Watched c false rs e v = (v, refl)

-- Reading leaves the state, the bytes to write and the watch as they are.
read-Watched :
    (c : Client) (chunks : List Bytes) (end_ : ReadEnd)
    → Watched c.state c.write_buffer c.interest
    → let d = (handle_read c chunks end_).0 in
      Watched d.state d.write_buffer d.interest
      × (d.state ≡ c.state)
      × (d.completing ≡ c.completing)
unfolding handle_read read_end
read-Watched c chunks failed v = (v, refl, refl)
read-Watched c chunks would_block v = (v, refl, refl)
read-Watched c chunks peer_closed v = (v, refl, refl)

connected_event-Watched :
    (c : Client) (ev : Event)
    → c.state ≡ connected
    → Watched c.state c.write_buffer c.interest
    → let d = (connected_event c ev).0 in
      Watched d.state d.write_buffer d.interest × (d.completing ≡ c.completing)
unfolding connected_event
connected_event-Watched c ev e v = elim (Bool-cases ev.readable) [
  | inl r ↦
      let d = (handle_read c ev.chunks ev.read_end).0 in
      let (w, same, idle) = read-Watched c ev.chunks ev.read_end v in
      let (x, still) = write_if-Watched d ev.writable ev.writes (same ∙ e) w in
      simp r (x, still ∙ idle)
  | inr r ↦ simp r (write_if-Watched c ev.writable ev.writes e v)
]

complete-IsWatched :
    (c : Client) (out err : Bool)
    → IsWatched c
    → c.write_buffer ≡ []
    → IsWatched (if out then handle_connect_complete c err else c)
unfolding handle_connect_complete
complete-IsWatched c false err v e = v
complete-IsWatched c true true v e = v
complete-IsWatched c true false v e = (inl e, λ f. e)

false_is_not_true : {A : Type 0} → false ≡ true → A
false_is_not_true e = cc

handle_event-IsWatched :
    (c : Client) (ev : Event) → c.completing ≡ false → IsWatched c → IsWatched (handle_event c ev).0
unfolding handle_event event_in
handle_event-IsWatched c ev f v = elim (Bool-cases ev.error_or_hangup) [
  | inl e ↦ simp e v
  | inr e ↦ simp e (go c.state refl)
]
  where
    go : (st : ConnectionState) → c.state ≡ st → IsWatched (event_in st c ev).0
    go disconnected e = v
    go connecting e =
        complete-IsWatched c ev.writable ev.socket_error v
          (subst (λ st. Watched st c.write_buffer c.interest) e v.0)
    go connected e =
        let (w, idle) = connected_event-Watched c ev e v.0 in
        (w, λ g. false_is_not_true (sym f ∙ (sym idle ∙ g)))

watch-IsWatched :
    (c : Client) (modified : Bool)
    → c.completing ≡ true
    → IsWatched c
    → IsWatched (watch_readable c modified)
unfolding watch_readable
watch-IsWatched c modified f v = (emptied c.state (v.1 f), λ g. false_is_not_true g)
  where
    emptied :
        (st : ConnectionState)
        → c.write_buffer ≡ []
        → Watched st c.write_buffer (watch_readable c modified).interest
    emptied connected e = inl e
    emptied connecting e = e
    emptied disconnected e = tt

step-IsWatched : (c : Client) (op : Op) → IsApart c op → IsWatched c → IsWatched (step c op)
unfolding step
step-IsWatched c (sends p) a v = send-IsWatched c p a v
step-IsWatched c stops a v = stop-IsWatched c v
step-IsWatched c (handles ev) a v = go c.completing refl
  where
    go : (b : Bool) → c.completing ≡ b → IsWatched (if b then c else (handle_event c ev).0)
    go true f = v
    go false f = handle_event-IsWatched c ev f v
step-IsWatched c (watches modified) a v = go c.completing refl
  where
    go : (b : Bool) → c.completing ≡ b → IsWatched (if b then watch_readable c modified else c)
    go true f = watch-IsWatched c modified f v
    go false f = v

-- Whatever calls of `send` and `stop`, events of the epoll thread and ends of its
-- `handle_connect_complete` follow on one another: if no `send` falls between the two steps of
-- `handle_connect_complete`, then bytes that wait on a connected client are watched for writing, and
-- none wait while it is connecting, if that was so at the start.
pub run-IsWatched :
    (ops : List Op) (c : Client) → AllApart c ops → IsWatched c → IsWatched (run c ops)
unfolding run
run-IsWatched [] c a v = v
run-IsWatched (op ∷ ops) c a v = run-IsWatched ops (step c op) a.1 (step-IsWatched c op a.0 v)
