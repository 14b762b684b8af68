-- ===== src/Transport/TcpClient/Hangup.antt =====
-- tcp_client_transport.cpp: what `send` says after the connection ended.
use mini_middleware.Prelude.{
  ◌≡◌, refl, sym, ◌∙◌, ap, subst, List, [], ◌∷◌, ◌++◌, append_assoc, append-nil, length, replicate,
  Bool, true, false, Bytes, if◌then◌else◌,
}
use mini_middleware.Transport.FrameCodec.{encode}
use mini_middleware.Transport.FrameCodec.Frames.{stream}
use mini_middleware.Transport.TcpClient.{
  Client, ConnectionState, connected, send, send_in, send_connected, handle_event, Event,
}

-- So many calls of `send`, and what each returns.
unfoldable pub send_all : Client → List Bytes → Client × List Bool
send_all c [] = (c, [])
send_all c (p ∷ ps) = let (d, ok) = send c p in let (e, oks) = send_all d ps in (e, ok ∷ oks)

abbrev queued : Client → Bytes → Client
queued c p = record c {
  write_buffer = c.write_buffer ++ encode p;
  interest = record { readable = true; writable = true };
}

send-queued :
    (c : Client) (p : Bytes)
    → c.state ≡ connected
    → c.stopped ≡ false
    → send c p ≡ (queued c p, true)
unfolding send send_in send_connected
send-queued c p e f =
    ap (λ (st : ConnectionState). send_in st c p) e
    ∙ ap (λ (b : Bool). if b then (c, false) else (queued c p, true)) f

send_all-connected :
    (ps : List Bytes) (c : Client)
    → c.state ≡ connected
    → c.stopped ≡ false
    → ((send_all c ps).1 ≡ replicate (length ps) true)
      × ((send_all c ps).0.write_buffer ≡ c.write_buffer ++ stream ps)
      × ((send_all c ps).0.running ≡ c.running)
unfolding send_all
send_all-connected [] c e f = (refl, sym (append-nil c.write_buffer), refl)
send_all-connected (p ∷ ps) c e f =
    let (oks, buffer, running) = send_all-connected ps (queued c p) e f in
    subst
      (λ (r : Client × Bool).
        (r.1 ∷ (send_all r.0 ps).1 ≡ true ∷ replicate (length ps) true)
        × ((send_all r.0 ps).0.write_buffer ≡ c.write_buffer ++ (encode p ++ stream ps))
        × ((send_all r.0 ps).0.running ≡ c.running))
      (sym (send-queued c p e f))
      (ap (◌∷◌ true) oks, buffer ∙ append_assoc c.write_buffer (encode p) (stream ps), running)

-- After an error or a hang-up on a connected client that was not stopped, its loop has ended, and
-- still each of any number of later calls of `send` returns true; their frames pile up in order
-- behind the bytes that waited, and the loop stays ended.
pub sends_after_hangup :
    (c : Client) (ev : Event) (ps : List Bytes)
    → c.state ≡ connected
    → c.stopped ≡ false
    → ev.error_or_hangup ≡ true
    → let (d, oks) = send_all (handle_event c ev).0 ps in
      (oks ≡ replicate (length ps) true)
      × (d.write_buffer ≡ c.write_buffer ++ stream ps)
      × (d.running ≡ false)
unfolding handle_event
sends_after_hangup c ev ps e f h = simp h (send_all-connected ps (record c { running = false }) e f)
