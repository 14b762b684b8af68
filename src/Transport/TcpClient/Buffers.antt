-- ===== src/Transport/TcpClient/Buffers.antt =====
-- tcp_client_transport.cpp: what each operation does to the bytes that wait to be written.
use mini_middleware.Prelude.{
  zero, suc, ◌≡◌, refl, sym, ◌∙◌, ap, inl, inr, List, [], ◌∷◌, ◌++◌, append_assoc, append-nil, Bool,
  true, false, Bytes, arith, Bool-cases, take, drop, take-append-drop,
}
use mini_middleware.Transport.FrameCodec.{encode}
use mini_middleware.Transport.TcpServer.{ReadEnd, peer_closed, would_block, failed}
use mini_middleware.Transport.TcpClient.{
  Client, ConnectionState, disconnected, connecting, connected, send, send_in, send_connected, stop,
  handle_write, WriteResult, wrote, again, broken, write_loop, handle_read, read_end, handle_event,
  event_in, connected_event, handle_connect_complete, watch_readable, Event,
}

-- What a call of `send` adds to the bytes that wait.
abbrev pub added : Bool → Bytes → Bytes
added true payload = encode payload
added false payload = []

pub send-write_buffer :
    (c : Client) (p : Bytes) → (send c p).0.write_buffer ≡ c.write_buffer ++ added (send c p).1 p
unfolding send
send-write_buffer c p = go c.state
  where
    go :
        (st : ConnectionState)
        → (send_in st c p).0.write_buffer ≡ c.write_buffer ++ added (send_in st c p).1 p
    go connected = elim (Bool-cases c.stopped) [
      | inl e ↦ rw (e, send_connected) (sym (append-nil c.write_buffer))
      | inr e ↦ rw (e, send_connected)
    ]
    go connecting = sym (append-nil c.write_buffer)
    go disconnected = sym (append-nil c.write_buffer)

write_loop-append :
    (buffer : Bytes) (rs : List WriteResult)
    → (write_loop buffer rs).out ++ (write_loop buffer rs).left ≡ buffer
unfolding write_loop
write_loop-append [] rs = refl
write_loop-append (b ∷ bs) [] = refl
write_loop-append (b ∷ bs) (again ∷ rs) = refl
write_loop-append (b ∷ bs) (broken ∷ rs) = refl
write_loop-append (b ∷ bs) (wrote zero ∷ rs) = refl
write_loop-append (b ∷ bs) (wrote (suc n) ∷ rs) = ap (◌∷◌ b) (
    append_assoc (take n bs) _ _
    ∙ ap (◌++◌ (take n bs)) (write_loop-append (drop n bs) rs)
    ∙ take-append-drop n bs)

handle_write-append :
    (c : Client) (rs : List WriteResult)
    → (handle_write c rs).1 ++ (handle_write c rs).0.write_buffer ≡ c.write_buffer
unfolding handle_write
handle_write-append c rs = write_loop-append c.write_buffer rs

handle_read-write_buffer :
    (c : Client) (chunks : List Bytes) (end_ : ReadEnd)
    → (handle_read c chunks end_).0.write_buffer ≡ c.write_buffer
unfolding handle_read read_end
handle_read-write_buffer c chunks failed = refl
handle_read-write_buffer c chunks would_block = refl
handle_read-write_buffer c chunks peer_closed = refl

event_in-append :
    (st : ConnectionState) (c : Client) (ev : Event)
    → (event_in st c ev).2 ++ (event_in st c ev).0.write_buffer ≡ c.write_buffer
unfolding event_in handle_connect_complete connected_event
event_in-append connecting c ev = ground arith
event_in-append disconnected c ev = refl
event_in-append connected c ev = ground (
  arith,
  handle_write-append c ev.writes,
  handle_write-append (handle_read c ev.chunks ev.read_end).0 ev.writes,
  handle_read-write_buffer c ev.chunks ev.read_end,
)

-- Whatever an event of the client writes is taken from the front of the bytes that wait.
pub handle_event-append :
    (c : Client) (ev : Event)
    → (handle_event c ev).2 ++ (handle_event c ev).0.write_buffer ≡ c.write_buffer
unfolding handle_event
handle_event-append c ev = elim (Bool-cases ev.error_or_hangup) [
  | inl e ↦ simp e
  | inr e ↦ simp e (event_in-append c.state c ev)
]

pub stop-write_buffer : (c : Client) → (stop c).write_buffer ≡ c.write_buffer
unfolding stop
stop-write_buffer c = ground arith

pub watch_readable-write_buffer :
    (c : Client) (modified : Bool) → (watch_readable c modified).write_buffer ≡ c.write_buffer
unfolding watch_readable
watch_readable-write_buffer c modified = refl
