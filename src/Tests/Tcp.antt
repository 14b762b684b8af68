-- ===== src/Tests/Tcp.antt =====
-- The TCP transports: one message from `send` to the callback, and the server's operations.
use mini_middleware.Prelude.{
  ◌≡◌, refl, List, [], ◌∷◌, ◌++◌, true, false, none, some, Bytes, nat_key,
}
use mini_middleware.Prelude.Dict.{find, insert}
use mini_middleware.Transport.FrameCodec.{
  write_uint32_be, encode, decode, decode_loop, read_uint32_be,
}
use mini_middleware.Transport.TcpServer.{
  Server, ReadEnd, peer_closed, would_block, start, handle_read, handle_event, Event,
}
use mini_middleware.Transport.TcpServer
use mini_middleware.Transport.TcpClient.{Client, connected, wrote}
use mini_middleware.Transport.TcpClient
use mini_middleware.Transport.TcpClient.{ConnectionState, connecting}
use mini_middleware.Transport.TcpClient.Connection.{
  IsWatched, AllApart, Op, run, step, sends, stops, handles, watches, run-IsWatched,
}
use mini_middleware.Transport.TcpClient.Hangup.{send_all, sends_after_hangup}
use mini_middleware.Transport.FrameCodec.Frames.{stream}
use mini_middleware.Prelude.{replicate, length}
use mini_middleware.Transport.EndToEnd.{System, Reach, here, later, send, client_event, read}
use mini_middleware.Transport.EndToEnd.Invariant.{carried}
use mini_middleware.Transport.EndToEnd.Delivery.{IsFresh, delivers_in_order, delivers_all}

abbrev idle_server : Server
idle_server = record {
  port = 0;
  listen_fd = none;
  epoll_fd = none;
  running = false;
  has_callback = true;
  connection_buffers = [];
}

abbrev failing_listen : TcpServer.StartCalls
failing_listen = record {
  socket = some 3;
  bind = true;
  getsockname = some 4000;
  listen = false;
  epoll_create = some 4;
  epoll_add = true;
}

-- One connection, the descriptor 7.
abbrev open_server : Server
open_server = record {
  port = 4000;
  listen_fd = some 3;
  epoll_fd = some 4;
  running = true;
  has_callback = true;
  connection_buffers = (7, []) ∷ [];
}

-- Another connection, the descriptor 8, is accepted.
abbrev accept_event : Event
accept_event = record {
  fd = 3;
  accepts = record { conn_fd = 8; epoll_add = true } ∷ [];
  chunks = [];
  read_end = would_block;
}

abbrev hi_bytes : Bytes
hi_bytes = 0 ∷ 0 ∷ 0 ∷ 2 ∷ 104 ∷ 105 ∷ []

open_server-find : find 7 open_server.connection_buffers ≡ some []
unfolding find
open_server-find = refl

abbrev ready_client : Client
ready_client = record {
  state = connected;
  sock_fd = some 5;
  epoll_fd = some 6;
  running = true;
  stopped = false;
  has_callback = false;
  interest = TcpClient.reading;
  completing = false;
  read_buffer = [];
  write_buffer = [];
}

abbrev fresh : System
fresh = record {
  client = ready_client;
  in_flight = [];
  server = open_server;
  delivered = [];
  sent = [];
}

fresh-IsFresh : IsFresh 7 fresh
fresh-IsFresh = record {
  callback = refl;
  accepted = open_server-find;
  nothing_sent = refl;
  nothing_delivered = refl;
  nothing_in_flight = refl;
  nothing_to_write = refl;
}

-- `send` took the payload.
abbrev sent_system : System
sent_system = record {
  client = record ready_client {
    interest = record { readable = true; writable = true };
    write_buffer = hi_bytes;
  };
  in_flight = [];
  server = open_server;
  delivered = [];
  sent = (104 ∷ 105 ∷ []) ∷ [];
}

-- The epoll thread wrote it out in two pieces.
abbrev write_event : TcpClient.Event
write_event = record {
  error_or_hangup = false;
  readable = false;
  writable = true;
  socket_error = false;
  chunks = [];
  read_end = would_block;
  writes = wrote 3 ∷ wrote 3 ∷ [];
}

abbrev written_system : System
written_system = record sent_system { client = ready_client; in_flight = hi_bytes }

abbrev read_system : System
read_system = record written_system { in_flight = []; delivered = (104 ∷ 105 ∷ []) ∷ [] }

fresh-Reach : Reach 7 fresh read_system
unfolding TcpClient.send TcpClient.handle_event TcpClient.handle_write TcpServer.handle_read find
    insert TcpServer.close_connection encode decode decode_loop write_uint32_be read_uint32_be
fresh-Reach =
    let one : Reach 7 fresh sent_system = later here (send (104 ∷ 105 ∷ [])) in
    let two : Reach 7 fresh written_system = later one (client_event write_event refl) in
    later two (read (hi_bytes ∷ []) would_block [] refl)

delivers_in_order_example :
    (todo : List Bytes) × (carried read_system.sent ≡ read_system.delivered ++ todo)
delivers_in_order_example = delivers_in_order fresh-IsFresh fresh-Reach

delivers_all_example : (read_system.delivered ≡ carried read_system.sent) × (◌≡◌ {A = Bytes} [] [])
delivers_all_example = delivers_all [] fresh-IsFresh fresh-Reach open_server-find refl refl

-- A client that waits for its connection.
abbrev waiting_client : Client
waiting_client = record ready_client {
  state = connecting;
  interest = record { readable = false; writable = true };
}

abbrev connect_event : TcpClient.Event
connect_event = record write_event { writes = [] }

abbrev life : List Op
life =
    handles connect_event ∷ watches true ∷ sends (104 ∷ 105 ∷ []) ∷ handles write_event ∷ stops ∷ []

life-AllApart : AllApart waiting_client life
unfolding step TcpClient.handle_event TcpClient.handle_connect_complete TcpClient.watch_readable
life-AllApart = (tt, (tt, (refl, (tt, (tt, tt)))))

run-IsWatched_example : IsWatched (run waiting_client life)
run-IsWatched_example = run-IsWatched life waiting_client life-AllApart (refl, λ f. refl)

abbrev hangup_event : TcpClient.Event
hangup_event = record write_event { error_or_hangup = true }

abbrev two_payloads : List Bytes
two_payloads = (104 ∷ 105 ∷ []) ∷ [] ∷ []

sends_after_hangup_example :
    let (d, oks) = send_all (TcpClient.handle_event ready_client hangup_event).0 two_payloads in
    (oks ≡ replicate (length two_payloads) true)
    × (d.write_buffer ≡ [] ++ stream two_payloads)
    × (d.running ≡ false)
sends_after_hangup_example =
    sends_after_hangup ready_client hangup_event two_payloads refl refl refl
