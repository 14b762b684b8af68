-- ===== src/Transport/TcpServer.antt =====
-- transport/src/tcp_server_transport.cpp. A system call is an argument of the operation that makes
-- it: what it returns, in the order of the calls. A file descriptor that the source holds as -1 is
-- `none`. The epoll thread is the function `handle_event` of one event.
pub mod Lifecycle
pub mod Reads
use mini_middleware.Prelude.{
  ℕ, zero, suc, ◌+◌, ◌≡◌, List, [], ◌∷◌, ◌++◌, map, Bool, true, false, not, Option, none, some,
  Bytes, if◌then◌else◌, ◌==◌, concat, nat_key,
}
use mini_middleware.Prelude.Dict.{Dict, find, insert, erase}
use mini_middleware.Transport.FrameCodec.{decode}

pub record Server : Type 0 where
  pub port : ℕ
  pub listen_fd : Option ℕ
  pub epoll_fd : Option ℕ
  pub running : Bool
  pub has_callback : Bool
  pub connection_buffers : Dict ℕ Bytes

-- What an operation does outside the object: payloads handed to `callback_`, descriptors closed.
pub record Effects : Type 0 where
  pub messages : List Bytes
  pub closed : List ℕ

abbrev pub nothing : Effects
nothing = record { messages = []; closed = [] }

abbrev pub closes : List ℕ → Effects
closes fds = record { messages = []; closed = fds }

-- The system calls of `start`, each with the descriptor or port that it gives, or its failure.
pub record StartCalls : Type 0 where
  pub socket : Option ℕ
  pub bind : Bool
  pub getsockname : Option ℕ
  pub listen : Bool
  pub epoll_create : Option ℕ
  pub epoll_add : Bool

bound_port : Server → Option ℕ → ℕ
bound_port s none = s.port
bound_port s (some p) = p

start_epoll : Server → StartCalls → ℕ → Option ℕ → Server × Effects × Bool
start_epoll s c fd none = (record s { listen_fd = none; epoll_fd = none }, closes (fd ∷ []), false)
start_epoll s c fd (some ep) =
    if c.epoll_add
    then (record s { listen_fd = some fd; epoll_fd = some ep; running = true }, nothing, true)
    else (record s { listen_fd = none; epoll_fd = none }, closes (fd ∷ ep ∷ []), false)

start_socket : Server → StartCalls → Option ℕ → Server × Effects × Bool
unfolding bound_port start_epoll
start_socket s c none = (record s { listen_fd = none }, nothing, false)
start_socket s c (some fd) =
    let bound = record s { port = bound_port s c.getsockname } in
    if not c.bind
    then (record s { listen_fd = none }, closes (fd ∷ []), false)
    else if not c.listen
    then (record bound { listen_fd = none }, closes (fd ∷ []), false)
    else start_epoll bound c fd c.epoll_create

unfoldable pub start : Server → StartCalls → Server × Effects × Bool
unfolding start_socket
start s c = start_socket s c c.socket

abbrev pub fd_list : Option ℕ → List ℕ
fd_list none = []
fd_list (some fd) = fd ∷ []

abbrev pub connection_fds : Dict ℕ Bytes → List ℕ
connection_fds = map (λ (c : ℕ × Bytes). c.0)

unfoldable pub stop : Server → Server × Effects
stop s =
    if s.running
    then (
      record s { running = false; listen_fd = none; epoll_fd = none; connection_buffers = [] },
      closes (fd_list s.listen_fd ++ (connection_fds s.connection_buffers ++ fd_list s.epoll_fd)),
    )
    else (s, nothing)

-- The server's own `send` does nothing.
unfoldable pub send : Server → Bytes → Bool
send s payload = false

unfoldable pub close_connection : Server → ℕ → Server × Effects
close_connection s fd =
    (record s { connection_buffers = erase fd s.connection_buffers }, closes (fd ∷ []))

-- One round of the accept loop: a connection, which epoll takes or not. The loop ends where the
-- list does, on EAGAIN or another error.
pub record Accepted : Type 0 where
  pub conn_fd : ℕ
  pub epoll_add : Bool

unfoldable pub handle_accept : Server → List Accepted → Server × Effects
handle_accept s [] = (s, nothing)
handle_accept s (a ∷ rest) =
    let kept =
      handle_accept
        (record s {
          connection_buffers =
              if a.epoll_add
              then insert a.conn_fd [] s.connection_buffers
              else s.connection_buffers;
        })
        rest in
    if a.epoll_add
    then kept
    else (kept.0, record { messages = kept.1.messages; closed = a.conn_fd ∷ kept.1.closed })

-- How the read loop ends: end of file, EAGAIN, or another error. Before that each `read` gave some
-- bytes.
pub data ReadEnd : Type 0 where
  peer_closed would_block failed : ReadEnd

deliver : Bool → List Bytes → List Bytes
deliver true msgs = msgs
deliver false msgs = []

after_reads : Server → ℕ → Bytes → ReadEnd → Server × Effects
unfolding close_connection deliver
after_reads s fd buffer failed = close_connection s fd
after_reads s fd buffer would_block =
    let (msgs, left) = decode buffer in
    (
      record s { connection_buffers = insert fd left s.connection_buffers },
      record { messages = deliver s.has_callback msgs; closed = [] },
    )
after_reads s fd buffer peer_closed =
    let (msgs, left) = decode buffer in
    let (t, e) =
      close_connection (record s { connection_buffers = insert fd left s.connection_buffers }) fd in
    (t, record { messages = deliver s.has_callback msgs; closed = e.closed })

read_known : Server → ℕ → List Bytes → ReadEnd → Option Bytes → Server × Effects
unfolding after_reads
read_known s fd chunks end_ none = (s, nothing)
read_known s fd chunks end_ (some buffer) = after_reads s fd (buffer ++ concat chunks) end_

unfoldable pub handle_read : Server → ℕ → List Bytes → ReadEnd → Server × Effects
unfolding read_known
handle_read s fd chunks end_ = read_known s fd chunks end_ (find fd s.connection_buffers)

-- One ready descriptor of `epoll_wait`, with what the calls made for it return.
pub record Event : Type 0 where
  pub fd : ℕ
  pub accepts : List Accepted
  pub chunks : List Bytes
  pub read_end : ReadEnd

is_listener : Option ℕ → ℕ → Bool
is_listener none fd = false
is_listener (some l) fd = fd == l

unfoldable pub handle_event : Server → Event → Server × Effects
unfolding is_listener
handle_event s ev =
    if is_listener s.listen_fd ev.fd
    then handle_accept s ev.accepts
    else handle_read s ev.fd ev.chunks ev.read_end
