-- ===== src/Transport/EndToEnd/Delivery.antt =====
-- In order, no loss, no duplicate: what the server delivers against what `send` accepted.
use mini_middleware.Transport.EndToEnd.Invariant.{carried, Inv, Step-Inv}
use mini_middleware.Prelude.{
  subst, some_inj, ℕ, ◌≡◌, refl, sym, ◌∙◌, ap, ap₂, inl, List, [], ◌++◌, append-nil, true, some,
  Bytes, arith, nat_key,
}
use mini_middleware.Prelude.Dict.{find}
use mini_middleware.Transport.FrameCodec.Frames.{IsPartial, stream}
use mini_middleware.Transport.FrameCodec.Streams.{drained}
use mini_middleware.Transport.EndToEnd.{System, Reach, here, later}

Reach-Inv : {fd : ℕ} {s t : System} → Inv fd s → Reach fd s t → Inv fd t
Reach-Inv v here = v
Reach-Inv v (later r st) = Step-Inv st (Reach-Inv v r)

-- A connection that the server has just accepted, with a callback set, and a client that has
-- nothing to write.
pub record IsFresh (fd : ℕ) (s : System) : Type 0 where
  pub callback : s.server.has_callback ≡ true
  pub accepted : find fd s.server.connection_buffers ≡ some []
  pub nothing_sent : s.sent ≡ []
  pub nothing_delivered : s.delivered ≡ []
  pub nothing_in_flight : s.in_flight ≡ []
  pub nothing_to_write : s.client.write_buffer ≡ []

IsFresh-Inv : {fd : ℕ} {s : System} → IsFresh fd s → Inv fd s
IsFresh-Inv {fd} {s} h = record {
  todo = [];
  order = rw (h.nothing_sent, h.nothing_delivered);
  fits = tt;
  callback = h.callback;
  open_ = λ buf f.
      let same : [] ≡ buf = some_inj (sym h.accepted ∙ f) in
      rw (h.nothing_in_flight, h.nothing_to_write)
        (subst (λ t. IsPartial t × ((t ++ []) ++ [] ≡ stream [])) same (inl (omega arith), refl));
}

-- From a fresh connection on, whatever `send`, partial writes, partial reads, ends of file, errors
-- and events of other connections interleave: the payloads that the server has delivered are, in
-- order and each once, the first ones of those that `send` accepted, less those over 16 MiB.
pub delivers_in_order :
    {fd : ℕ} {s t : System}
    → IsFresh fd s
    → Reach fd s t
    → (todo : List Bytes) × (carried t.sent ≡ t.delivered ++ todo)
delivers_in_order h r = ((Reach-Inv (IsFresh-Inv h) r).todo, (Reach-Inv (IsFresh-Inv h) r).order)

-- From a fresh connection on, after any steps: while the server holds the connection, once the
-- client has written its buffer out and the server has read what was under way, exactly the payloads
-- up to 16 MiB that `send` accepted have been delivered, in order, and the server's buffer is empty.
pub delivers_all :
    {fd : ℕ} {s t : System} (buf : Bytes)
    → IsFresh fd s
    → Reach fd s t
    → find fd t.server.connection_buffers ≡ some buf
    → t.client.write_buffer ≡ []
    → t.in_flight ≡ []
    → (t.delivered ≡ carried t.sent) × (buf ≡ [])
delivers_all {fd} {s} {t} buf h r found written arrived = (
  sym (v.order ∙ ap (λ x. t.delivered ++ x) (sym empty) ∙ append-nil t.delivered),
  whole ∙ ap stream (sym empty),
)
  where
    v : Inv fd t
    v = Reach-Inv (IsFresh-Inv h) r

    whole : buf ≡ stream v.todo
    whole =
        sym (append-nil buf)
        ∙ sym (append-nil (buf ++ []))
        ∙ ap₂ (λ x y. (buf ++ x) ++ y) (sym arrived) (sym written)
        ∙ (v.open_ buf found).1

    empty : [] ≡ v.todo
    empty = drained v.todo 0 v.fits (subst IsPartial whole (v.open_ buf found).0)
