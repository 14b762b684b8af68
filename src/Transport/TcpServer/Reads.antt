-- ===== src/Transport/TcpServer/Reads.antt =====
-- tcp_server_transport.cpp: `handle_read` on each way in which the read loop ends.
use mini_middleware.Prelude.{
  ℕ, ◌≡◌, refl, List, [], ◌∷◌, ◌++◌, true, none, some, Bytes, arith, concat, nat_key,
}
use mini_middleware.Prelude.Dict.{find, insert, find-insert, find-erase}
use mini_middleware.Transport.FrameCodec.{decode}
use mini_middleware.Transport.TcpServer.{
  Server, Effects, ReadEnd, peer_closed, would_block, failed, after_reads, read_known, handle_read,
}

-- What a read leaves of a connection, of the buffered and read bytes `all`.
abbrev pub ReadOutcome : ℕ → Bytes → ReadEnd → Server × Effects → Type 0
ReadOutcome fd all would_block (t, e) =
    (e.messages ≡ (decode all).0)
    × (e.closed ≡ [])
    × (find fd t.connection_buffers ≡ some (decode all).1)
ReadOutcome fd all peer_closed (t, e) =
    (e.messages ≡ (decode all).0) × (e.closed ≡ fd ∷ []) × (find fd t.connection_buffers ≡ none)
ReadOutcome fd all failed (t, e) =
    (e.messages ≡ []) × (e.closed ≡ fd ∷ []) × (find fd t.connection_buffers ≡ none)

after_reads_outcome :
    (s : Server) (fd : ℕ) (all : Bytes) (end_ : ReadEnd)
    → s.has_callback ≡ true
    → ReadOutcome fd all end_ (after_reads s fd all end_)
unfolding after_reads
after_reads_outcome s fd all would_block h =
    ground (arith, find-insert fd fd (decode all).1 s.connection_buffers)
after_reads_outcome s fd all peer_closed h =
    ground (arith, find-erase fd fd (insert fd (decode all).1 s.connection_buffers))
after_reads_outcome s fd all failed h = ground (arith, find-erase fd fd s.connection_buffers)

-- On a known connection with a callback set: when no more bytes are at hand, all whole frames of
-- the buffered and new bytes are delivered and the rest is kept; at the end of the file the whole
-- frames are delivered and the connection is closed and forgotten; on an error it is closed and
-- forgotten with nothing delivered.
pub handle_read_outcome :
    (s : Server) (fd : ℕ) (buffer : Bytes) (chunks : List Bytes) (end_ : ReadEnd)
    → s.has_callback ≡ true
    → find fd s.connection_buffers ≡ some buffer
    → ReadOutcome fd (buffer ++ concat chunks) end_ (handle_read s fd chunks end_)
unfolding handle_read
handle_read_outcome s fd buffer chunks end_ h e =
    rw (e, read_known) (after_reads_outcome s fd (buffer ++ concat chunks) end_ h)

-- On an unknown descriptor nothing happens.
pub handle_read_unknown :
    (s : Server) (fd : ℕ) (chunks : List Bytes) (end_ : ReadEnd)
    → find fd s.connection_buffers ≡ none
    → ((handle_read s fd chunks end_).1.messages ≡ [])
      × (find fd (handle_read s fd chunks end_).0.connection_buffers ≡ none)
unfolding handle_read
handle_read_unknown s fd chunks end_ e = rw (e, read_known) (refl, e)
