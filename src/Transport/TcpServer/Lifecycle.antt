-- ===== src/Transport/TcpServer/Lifecycle.antt =====
-- tcp_server_transport.cpp: what starting, stopping and one event leave behind.
use mini_middleware.Prelude.{
  ℕ, ◌≡◌, refl, ◌≢◌, ◌⊎◌, inl, inr, List, [], ◌∷◌, ◌++◌, Bool, true, false, ◌&&◌, Option, none,
  some, Bytes, arith, All, if◌then◌else◌, Bool-cases, nat_key, Option-cases, concat,
}
use mini_middleware.Prelude.Dict.{find, insert, find-insert, find-erase}
use mini_middleware.Transport.FrameCodec.{decode}
use mini_middleware.Transport.TcpServer.{
  Server, Effects, StartCalls, start, handle_accept, Accepted, ReadEnd, peer_closed, would_block,
  failed, after_reads, read_known, handle_read, Event, handle_event, is_listener, fd_list,
}

-- The descriptors that the calls of `start` give it, up to the call that fails.
abbrev pub opened : StartCalls → List ℕ
opened c = fd_list c.socket ++ (if c.bind && c.listen then opened_epoll c.socket else [])
  where
    opened_epoll : Option ℕ → List ℕ
    opened_epoll none = []
    opened_epoll (some fd) = fd_list c.epoll_create

-- What `start` comes to: the server listens and runs, or nothing that it opened stays open.
abbrev pub StartOutcome : Server → StartCalls → Server × Effects × Bool → Type 0
StartOutcome s c (t, e, done) =
    ((done ≡ true)
      × (t.running ≡ true)
      × (t.listen_fd ≡ c.socket)
      × (t.epoll_fd ≡ c.epoll_create)
      × (c.socket ≢ none)
      × (c.epoll_create ≢ none)
      × (e.closed ≡ []))
    ⊎ ((done ≡ false) × (t.running ≡ s.running) × (t.listen_fd ≡ none) × (e.closed ≡ opened c))

-- `start` either returns true, running, with the listening socket and the epoll instance that it
-- was given and nothing closed; or it returns false, not running, with no listening socket and
-- with every descriptor that it had opened closed.
pub start_outcome : (s : Server) (c : StartCalls) → StartOutcome s c (start s c)
unfolding start
start_outcome s c = ground arith

-- An event of another descriptor leaves the buffer of a connection as it is, if `accept` gives no
-- descriptor that is in use.
handle_accept-find :
    (s : Server) (fd : ℕ) (accepts : List Accepted)
    → All (λ (a : Accepted). a.conn_fd ≢ fd) accepts
    → find fd (handle_accept s accepts).0.connection_buffers ≡ find fd s.connection_buffers
unfolding handle_accept
handle_accept-find s fd [] h = refl
handle_accept-find s fd (a ∷ rest) h = ground (
  arith,
  find-insert a.conn_fd fd [] s.connection_buffers,
  handle_accept-find
      (record s {
        connection_buffers =
            if a.epoll_add then insert a.conn_fd [] s.connection_buffers else s.connection_buffers;
      })
      fd rest h.1,
)

after_reads-find :
    (s : Server) (fd j : ℕ) (buffer : Bytes) (end_ : ReadEnd)
    → j ≢ fd
    → find fd (after_reads s j buffer end_).0.connection_buffers ≡ find fd s.connection_buffers
unfolding after_reads
after_reads-find s fd j buffer failed h = ground (arith, find-erase j fd s.connection_buffers)
after_reads-find s fd j buffer would_block h =
    ground (arith, find-insert j fd (decode buffer).1 s.connection_buffers)
after_reads-find s fd j buffer peer_closed h = ground (
  arith,
  find-insert j fd (decode buffer).1 s.connection_buffers,
  find-erase j fd (insert j (decode buffer).1 s.connection_buffers),
)

handle_read-find :
    (s : Server) (fd j : ℕ) (chunks : List Bytes) (end_ : ReadEnd)
    → j ≢ fd
    → find fd (handle_read s j chunks end_).0.connection_buffers ≡ find fd s.connection_buffers
unfolding handle_read
handle_read-find s fd j chunks end_ h = elim (Option-cases (find j s.connection_buffers)) [
  | inl e ↦ rw (e, read_known)
  | inr (b, e) ↦ rw (e, read_known) (after_reads-find s fd j (b ++ concat chunks) end_ h)
]

-- An event of another descriptor, be it new connections, bytes, an end of file or an error, leaves
-- a connection's buffer as it is, if no descriptor that `accept` gives is the connection's own.
pub handle_event-find :
    (s : Server) (fd : ℕ) (ev : Event)
    → ev.fd ≢ fd
    → All (λ (a : Accepted). a.conn_fd ≢ fd) ev.accepts
    → find fd (handle_event s ev).0.connection_buffers ≡ find fd s.connection_buffers
unfolding handle_event
handle_event-find s fd ev h fresh = elim (Bool-cases (is_listener s.listen_fd ev.fd)) [
  | inl e ↦ rw e (handle_accept-find s fd ev.accepts fresh)
  | inr e ↦ rw e (handle_read-find s fd ev.fd ev.chunks ev.read_end h)
]

-- No event takes the callback away.
handle_accept-callback :
    (s : Server) (accepts : List Accepted)
    → (handle_accept s accepts).0.has_callback ≡ s.has_callback
unfolding handle_accept
handle_accept-callback s [] = refl
handle_accept-callback s (a ∷ rest) = ground (
  arith,
  handle_accept-callback
      (record s {
        connection_buffers =
            if a.epoll_add then insert a.conn_fd [] s.connection_buffers else s.connection_buffers;
      })
      rest,
)

after_reads-callback :
    (s : Server) (fd : ℕ) (buffer : Bytes) (end_ : ReadEnd)
    → (after_reads s fd buffer end_).0.has_callback ≡ s.has_callback
unfolding after_reads
after_reads-callback s fd buffer failed = refl
after_reads-callback s fd buffer would_block = refl
after_reads-callback s fd buffer peer_closed = refl

pub handle_read-callback :
    (s : Server) (fd : ℕ) (chunks : List Bytes) (end_ : ReadEnd)
    → (handle_read s fd chunks end_).0.has_callback ≡ s.has_callback
unfolding handle_read
handle_read-callback s fd chunks end_ = elim (Option-cases (find fd s.connection_buffers)) [
  | inl e ↦ rw (e, read_known)
  | inr (b, e) ↦ rw (e, read_known) (after_reads-callback s fd (b ++ concat chunks) end_)
]

pub handle_event-callback :
    (s : Server) (ev : Event) → (handle_event s ev).0.has_callback ≡ s.has_callback
unfolding handle_event
handle_event-callback s ev = elim (Bool-cases (is_listener s.listen_fd ev.fd)) [
  | inl e ↦ rw e (handle_accept-callback s ev.accepts)
  | inr e ↦ rw e (handle_read-callback s ev.fd ev.chunks ev.read_end)
]
