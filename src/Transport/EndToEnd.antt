-- ===== src/Transport/EndToEnd.antt =====
-- A connection from end to end: the client of tcp_client_transport.cpp, the bytes under way, and the
-- server of tcp_server_transport.cpp, whose descriptor for this connection is `fd`. The steps
-- interleave in any order; TCP keeps the bytes in order and loses none while both ends are open.
pub mod Invariant
pub mod Delivery
use mini_middleware.Prelude.{
  ℕ, ◌≡◌, ◌≢◌, List, [], ◌∷◌, ◌++◌, Bytes, All, Bool, true, false, concat, if◌then◌else◌,
}
use mini_middleware.Transport.TcpServer.{Server, Accepted, ReadEnd}
use mini_middleware.Transport.TcpServer
use mini_middleware.Transport.TcpClient.{Client}
use mini_middleware.Transport.TcpClient

-- `delivered` are the payloads that the server handed to its callback from this connection, `sent`
-- those for which `send` returned true.
pub record System : Type 0 where
  pub client : Client
  pub in_flight : Bytes
  pub server : Server
  pub delivered : List Bytes
  pub sent : List Bytes

pub data Step (fd : ℕ) (s : System) : System → Type 0 where
  send :
      (p : Bytes)
      → Step fd s (record s {
        client = (TcpClient.send s.client p).0;
        sent = if (TcpClient.send s.client p).1 then s.sent ++ (p ∷ []) else s.sent;
      })
  -- One event of the client's epoll thread, which may leave it within `handle_connect_complete`.
  client_event :
      (ev : TcpClient.Event)
      → s.client.completing ≡ false
      → Step fd s (record s {
        client = (TcpClient.handle_event s.client ev).0;
        in_flight = s.in_flight ++ (TcpClient.handle_event s.client ev).2;
      })
  client_watches :
      (modified : Bool)
      → s.client.completing ≡ true
      → Step fd s (record s { client = TcpClient.watch_readable s.client modified })
  client_stop : Step fd s (record s { client = TcpClient.stop s.client })
  read :
      (chunks : List Bytes) (end_ : ReadEnd) (rest : Bytes)
      → s.in_flight ≡ concat chunks ++ rest
      → Step fd s (record s {
        server = (TcpServer.handle_read s.server fd chunks end_).0;
        in_flight = rest;
        delivered = s.delivered ++ (TcpServer.handle_read s.server fd chunks end_).1.messages;
      })
  server_event :
      (ev : TcpServer.Event)
      → ev.fd ≢ fd
      → All (λ (a : Accepted). a.conn_fd ≢ fd) ev.accepts
      → Step fd s (record s { server = (TcpServer.handle_event s.server ev).0 })

pub data Reach (fd : ℕ) (s : System) : System → Type 0 where
  here : Reach fd s s
  later : {t u : System} → Reach fd s t → Step fd t u → Reach fd s u
