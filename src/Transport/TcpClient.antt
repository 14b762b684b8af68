-- ===== src/Transport/TcpClient.antt =====
-- transport/src/tcp_client_transport.cpp. System calls are arguments, as in TcpServer. The epoll
-- thread is `handle_event` of one event; `send` is called from other threads, and the mutexes make
-- each of these operations one step, but for `handle_connect_complete`, which holds none and is two.
-- `stop` waits for the epoll thread. The calls of epoll_ctl in `send` and `handle_write` succeed.
pub mod Buffers
pub mod Connection
pub mod Hangup
use mini_middleware.Prelude.{
  ℕ, zero, suc, ◌+◌, ◌≡◌, List, [], ◌∷◌, ◌++◌, Bool, true, false, ◌&&◌, ◌||◌, not, Option, none,
  some, Bytes, if◌then◌else◌, concat, take, drop,
}
use mini_middleware.Transport.FrameCodec.{encode, decode}
use mini_middleware.Transport.TcpServer.{ReadEnd, peer_closed, would_block, failed}

pub data ConnectionState : Type 0 where
  disconnected connecting connected : ConnectionState

-- What epoll watches the socket for.
pub record Interest : Type 0 where
  pub readable : Bool
  pub writable : Bool

-- `completing` while the epoll thread stands between the two steps of `handle_connect_complete`.
pub record Client : Type 0 where
  pub state : ConnectionState
  pub sock_fd : Option ℕ
  pub epoll_fd : Option ℕ
  pub running : Bool
  pub stopped : Bool
  pub has_callback : Bool
  pub interest : Interest
  pub completing : Bool
  pub read_buffer : Bytes
  pub write_buffer : Bytes

abbrev pub reading : Interest
reading = record { readable = true; writable = false }

-- `connect` returns 0, EINPROGRESS or another error.
pub data ConnectResult : Type 0 where
  at_once in_progress refused : ConnectResult

pub record StartCalls : Type 0 where
  pub socket : Option ℕ
  pub host_ok : Bool
  pub connect : ConnectResult
  pub epoll_create : Option ℕ

abbrev connect_state : ConnectionState → ConnectResult → ConnectionState
connect_state old at_once = connected
connect_state old in_progress = connecting
connect_state old refused = old

abbrev connect_fails : ConnectResult → Bool
connect_fails refused = true
connect_fails _ = false

abbrev start_interest : ConnectResult → Interest
start_interest in_progress = record { readable = false; writable = true }
start_interest _ = reading

start_epoll : Client → StartCalls → ℕ → Option ℕ → Client × List ℕ × Bool
start_epoll c calls fd none = (
  record c { sock_fd = none; epoll_fd = none; state = connect_state c.state calls.connect },
  fd ∷ [],
  false,
)
start_epoll c calls fd (some ep) = (
  record c {
    sock_fd = some fd;
    epoll_fd = some ep;
    state = connect_state c.state calls.connect;
    running = true;
    interest = start_interest calls.connect;
  },
  [],
  true,
)

start_socket : Client → StartCalls → Option ℕ → Client × List ℕ × Bool
unfolding start_epoll
start_socket c calls none = (record c { sock_fd = none }, [], false)
start_socket c calls (some fd) =
    if not calls.host_ok || connect_fails calls.connect
    then (record c { sock_fd = none }, fd ∷ [], false)
    else start_epoll c calls fd calls.epoll_create

-- The client, the descriptors closed, and the result.
unfoldable pub start : Client → StartCalls → Client × List ℕ × Bool
unfolding start_socket
start c calls = start_socket c calls calls.socket

unfoldable pub stop : Client → Client
stop c = if c.stopped then c else record c {
  stopped = true;
  running = false;
  sock_fd = none;
  epoll_fd = none;
  state = disconnected;
  completing = false;
}

send_connected : Client → Bytes → Client × Bool
send_connected c payload = if c.stopped then (c, false) else (
  record c {
    write_buffer = c.write_buffer ++ encode payload;
    interest = record { readable = true; writable = true };
  },
  true,
)

send_in : ConnectionState → Client → Bytes → Client × Bool
unfolding send_connected
send_in connected c payload = send_connected c payload
send_in connecting c payload = (c, false)
send_in disconnected c payload = (c, false)

unfoldable pub send : Client → Bytes → Client × Bool
unfolding send_in
send c payload = send_in c.state c payload

-- `handle_connect_complete` up to its first store, the state. `err` is the pending error of the
-- socket, SO_ERROR. No lock is held, so other threads may call `send` before its end.
unfoldable pub handle_connect_complete : Client → Bool → Client
handle_connect_complete c err =
    if err then record c { running = false } else record c { state = connected; completing = true }

-- The end of `handle_connect_complete`: epoll is to watch for reading only. `modified` says whether
-- `epoll_ctl` succeeds, which the source does not ask.
unfoldable pub watch_readable : Client → Bool → Client
watch_readable c modified = record c {
  interest = if modified then reading else c.interest;
  completing = false;
}

read_end : Client → Bytes → ReadEnd → Client × List Bytes
read_end c buffer failed = (record c { running = false; read_buffer = buffer }, [])
read_end c buffer would_block =
    let (msgs, left) = decode buffer in
    (record c { read_buffer = left }, if c.has_callback then msgs else [])
read_end c buffer peer_closed =
    let (msgs, left) = decode buffer in
    (record c { read_buffer = left; running = false }, if c.has_callback then msgs else [])

-- The client, and the payloads handed to `callback_`.
unfoldable pub handle_read : Client → List Bytes → ReadEnd → Client × List Bytes
unfolding read_end
handle_read c chunks end_ = read_end c (c.read_buffer ++ concat chunks) end_

-- What a `write` returns: a number of bytes, EAGAIN, or another error.
pub data WriteResult : Type 0 where
  wrote : ℕ → WriteResult
  again broken : WriteResult

-- How the loop leaves the buffer, the bytes that went out, and whether it met an error.
pub record Written : Type 0 where
  pub left : Bytes
  pub out : Bytes
  pub error : Bool

-- Where the results end, the buffer of the kernel is full.
write_loop : Bytes → List WriteResult → Written
write_loop [] rs = record { left = []; out = []; error = false }
write_loop (b ∷ bs) [] = record { left = b ∷ bs; out = []; error = false }
write_loop (b ∷ bs) (again ∷ rs) = record { left = b ∷ bs; out = []; error = false }
write_loop (b ∷ bs) (broken ∷ rs) = record { left = b ∷ bs; out = []; error = true }
write_loop (b ∷ bs) (wrote zero ∷ rs) = record { left = b ∷ bs; out = []; error = true }
write_loop (b ∷ bs) (wrote (suc n) ∷ rs) =
    let w = write_loop (drop n bs) rs in record w { out = b ∷ (take n bs ++ w.out) }

interest_after : Interest → Bytes → Interest
interest_after old [] = reading
interest_after old (b ∷ bs) = old

-- The client, and the bytes that went out.
unfoldable pub handle_write : Client → List WriteResult → Client × Bytes
unfolding write_loop interest_after
handle_write c rs =
    let w = write_loop c.write_buffer rs in
    (
      record c {
        write_buffer = w.left;
        running = c.running && not w.error;
        interest = interest_after c.interest w.left;
      },
      w.out,
    )

-- One ready event of `epoll_wait`: its flags, and what the calls made for it return.
pub record Event : Type 0 where
  pub error_or_hangup : Bool
  pub readable : Bool
  pub writable : Bool
  pub socket_error : Bool
  pub chunks : List Bytes
  pub read_end : ReadEnd
  pub writes : List WriteResult

-- The client, the payloads handed to `callback_`, the bytes that went out.
connected_event : Client → Event → Client × List Bytes × Bytes
connected_event c ev =
    let (c', msgs) = if ev.readable then handle_read c ev.chunks ev.read_end else (c, []) in
    let (c'', out) = if ev.writable then handle_write c' ev.writes else (c', []) in (c'', msgs, out)

event_in : ConnectionState → Client → Event → Client × List Bytes × Bytes
event_in connecting c ev =
    (if ev.writable then handle_connect_complete c ev.socket_error else c, [], [])
event_in connected c ev = connected_event c ev
event_in disconnected c ev = (c, [], [])

unfoldable pub handle_event : Client → Event → Client × List Bytes × Bytes
unfolding connected_event event_in
handle_event c ev =
    if ev.error_or_hangup then (record c { running = false }, [], []) else event_in c.state c ev
