-- ===== src/Core/ShmReader/OnRing.antt =====
-- shm_reader.cpp on the ring of shm_ring.h: what the poll of a reader hands on.
use mini_middleware.Prelude.{
  inl, inr, ℕ, zero, suc, ◌≤◌, ◌≡◌, ◌⊎◌, refl, sym, ◌∙◌, ap, ap₂, List, [], ◌∷◌, ◌++◌, append_assoc,
  map, concat, Bool, true, false, not, ◌||◌, Option, none, some, Bytes, length, ltb, leb, ◌==◌,
  ==_iff, if◌then◌else◌, either_branch, arith, bytes_key,
}
use mini_middleware.Core.LocalBus.{Bus, deliver_inbound, enqueue_all}
use mini_middleware.Core.LocalBus.Delivery.{
  listeners, to_listeners, inbound_not_forwarded, deliver_inbound-listeners,
}
use mini_middleware.Core.ShmReader.{Drained, drain}
use mini_middleware.Transport.ShmRing.{
  System, WriterPc, resting, claimed, marked, copying, ReaderPc, outside, looping, checking,
  measuring, fetching, verifying, writer_step, writer_move, reader_step, reader_move, slot, Reach,
  later, write, read,
}

-- A reader of a ring, and who moves next, the poller or the writer with a message, step by step.
pub record Attached : Type 0 where
  pub system : System
  pub moves : List (Option Bytes)

abbrev is_outside : ReaderPc → Bool
is_outside outside = true
is_outside _ = false

-- The steps up to the return of a call of `read`, interleaved with those of the writer, as far as
-- the moves go.
unfoldable pub finish : List (Option Bytes) → System → Attached
finish [] s = record { system = s; moves = [] }
finish (some msg ∷ ms) s = finish ms (writer_step s msg)
finish (none ∷ ms) s =
    let t = reader_step s in
    let rest = finish ms t in
    if is_outside t.reader then record { system = t; moves = ms } else rest

abbrev newest : List (ℕ × Bytes) → Option Bytes
newest [] = none
newest (d ∷ ds) = some d.1

-- What the call returned: the message that it added to those delivered, if it did.
abbrev returned : System → System → Option Bytes
returned s t = if length t.delivered == length s.delivered then none else newest t.delivered

abbrev pub call : Attached → Attached × Option Bytes
call r = let r' = finish r.moves r.system in (r', returned r.system r'.system)

-- One entry more, and the call returned.
abbrev Grew : System → System → Type 0
Grew s t =
    (t.delivered ≡ s.delivered)
    ⊎ ((d : ℕ × Bytes) × (t.delivered ≡ d ∷ s.delivered) × (is_outside t.reader ≡ true))

reader_move-Grew : (s : System) (pc : ReaderPc) → Grew s (reader_move s pc)
unfolding reader_move
reader_move-Grew s outside = inl refl
reader_move-Grew s looping =
    either_branch (Grew s) (leb s.ring.write_seq s.next) (inl refl) (inl refl)
reader_move-Grew s checking =
    either_branch (Grew s) (not ((slot s.ring s.next).pos == s.next)) (inl refl)
      (either_branch (Grew s) (slot s.ring s.next).writing (inl refl) (inl refl))
reader_move-Grew s measuring =
    either_branch (Grew s) (ltb s.ring.slot_size (slot s.ring s.next).len) (inl refl) (inl refl)
reader_move-Grew s (fetching len out) =
    either_branch (Grew s) (ltb (length out) len) (inl refl) (inl refl)
reader_move-Grew s (verifying out) =
    either_branch (Grew s)
      ((slot s.ring s.next).writing || not ((slot s.ring s.next).pos == s.next)) (inl refl)
      (inr ((s.next, out), refl, refl))

writer_move-delivered :
    (s : System) (msg : Bytes) (pc : WriterPc) → (writer_move s msg pc).delivered ≡ s.delivered
unfolding writer_move
writer_move-delivered s msg resting = ground arith
writer_move-delivered s msg (claimed pos m) = refl
writer_move-delivered s msg (marked pos m) = refl
writer_move-delivered s msg (copying pos m i) = ground arith

-- A call adds one entry at most.
abbrev Adds : System → System → Type 0
Adds s t = (t.delivered ≡ s.delivered) ⊎ ((d : ℕ × Bytes) × (t.delivered ≡ d ∷ s.delivered))

Adds-from : (s t u : System) → t.delivered ≡ s.delivered → Adds t u → Adds s u
Adds-from s t u e (inl f) = inl (f ∙ e)
Adds-from s t u e (inr (d, f)) = inr (d, f ∙ ap (◌∷◌ d) e)

finish-Adds : (ms : List (Option Bytes)) (s : System) → Adds s (finish ms s).system
unfolding finish reader_step writer_step
finish-Adds [] s = inl refl
finish-Adds (some msg ∷ ms) s =
    let t = writer_step s msg in
    Adds-from s t (finish ms t).system (writer_move-delivered s msg s.writer) (finish-Adds ms t)
finish-Adds (none ∷ ms) s =
    let t = reader_step s in
    elim (reader_move-Grew s s.reader) [
      | inl same ↦
          either_branch (λ (r : Attached). Adds s r.system) (is_outside t.reader) (inl same)
            (Adds-from s t (finish ms t).system same (finish-Adds ms t))
      | inr (d, more, out) ↦ rw out (inr (d, more))
    ]

finish-Reach : (ms : List (Option Bytes)) {s t : System} → Reach s t → Reach s (finish ms t).system
unfolding finish
finish-Reach [] r = r
finish-Reach (some msg ∷ ms) r = finish-Reach ms (later r (write msg))
finish-Reach (none ∷ ms) {s} {t} r =
    either_branch (λ (x : Attached). Reach s x.system) (is_outside (reader_step t).reader)
      (later r read) (finish-Reach ms (later r read))

call_cases :
    (r : Attached)
    → (((call r).1 ≡ none) × ((call r).0.system.delivered ≡ r.system.delivered))
      ⊎ ((d : ℕ × Bytes) × ((call r).1 ≡ some d.1)
          × ((call r).0.system.delivered ≡ d ∷ r.system.delivered))
call_cases r =
    let old = r.system.delivered in
    let pick : List (ℕ × Bytes) → Option Bytes =
      λ (ds : List (ℕ × Bytes)). if length ds == length old then none else newest ds in
    elim (finish-Adds r.moves r.system) [
      | inl same ↦
          let even : (length old == length old) ≡ true = (==_iff _ _).1 refl in
          inl (ap pick same ∙ rw even refl, same)
      | inr (d, more) ↦
          let odd : (length (d ∷ old) == length old) ≡ false = ground arith in
          inr (d, ap pick more ∙ rw odd refl, more)
    ]

-- The messages of a list that has the latest first, the earliest first.
abbrev pub payloads : List (ℕ × Bytes) → List Bytes
payloads [] = []
payloads (d ∷ ds) = payloads ds ++ (d.1 ∷ [])

payloads-snoc :
    (ds : List (ℕ × Bytes)) (d : ℕ × Bytes) → payloads (ds ++ (d ∷ [])) ≡ d.1 ∷ payloads ds
payloads-snoc [] d = refl
payloads-snoc (x ∷ ds) d = ap (λ (bs : List Bytes). bs ++ (x.1 ∷ [])) (payloads-snoc ds d)

abbrev pub Steady : (ℕ → Bool) → Bus → Bus → Type 0
Steady alive bus bus' = (other : Bytes) → listeners alive bus' other ≡ listeners alive bus other

-- What so many reads at most hand on: the entries that they added to those delivered.
abbrev pub Hands :
    (ℕ → Bool) → ℕ → Bus → Bytes → Attached → Drained Attached → List (ℕ × Bytes) → Type 0
Hands alive n bus topic r d new =
    (d.sent ≡ to_listeners alive bus topic (payloads new))
    × (d.reader.system.delivered ≡ new ++ r.system.delivered)
    × Steady alive bus d.bus
    × (length new ≤ n)

length-snoc : (ds : List (ℕ × Bytes)) (d : ℕ × Bytes) → length (ds ++ (d ∷ [])) ≡ suc (length ds)
length-snoc [] d = refl
length-snoc (x ∷ ds) d = ap suc (length-snoc ds d)

pub drain-Hands :
    (alive : ℕ → Bool) (n : ℕ) (bus : Bus) (topic : Bytes) (r : Attached)
    → (new : List (ℕ × Bytes)) × Hands alive n bus topic r (drain call alive n bus topic r) new
unfolding drain
drain-Hands alive zero bus topic r = ([], (refl, refl, (λ other. refl), omega arith))
drain-Hands alive (suc n) bus topic r = elim (call_cases r) [
  | inl (nothing, same) ↦ rw nothing ([], (refl, same, (λ other. refl), omega arith))
  | inr (d, got, more) ↦
      let bus' = (deliver_inbound alive bus topic d.1).0 in
      let (new, (sent, left, steady, few)) = drain-Hands alive n bus' topic (call r).0 in
      let same = deliver_inbound-listeners alive bus topic d.1 in
      rw got (
        new ++ (d ∷ []),
        (
          ap₂ ◌++◌ (inbound_not_forwarded alive bus [] topic d.1) (
                sent
                ∙ ap
                    (λ (ss : List ℕ). concat (map (λ (b : Bytes). enqueue_all b ss) (payloads new)))
                    (same topic))
              ∙ ap (to_listeners alive bus topic) (sym (payloads-snoc new d)),
          left
              ∙ ap (λ (ds : List (ℕ × Bytes)). new ++ ds) more
              ∙ sym (append_assoc new (d ∷ []) r.system.delivered),
          (λ other. steady other ∙ same other),
          omega (arith, few, length-snoc new d),
        ),
      )
]

pub drain-Reach :
    (alive : ℕ → Bool) (n : ℕ) (bus : Bus) (topic : Bytes) (r : Attached) {s : System}
    → Reach s r.system
    → Reach s (drain call alive n bus topic r).reader.system
unfolding drain
drain-Reach alive zero bus topic r h = h
drain-Reach alive (suc n) bus topic r h = elim (call_cases r) [
  | inl (nothing, same) ↦ rw nothing (finish-Reach r.moves h)
  | inr (d, got, more) ↦ rw got (
      drain-Reach alive n (deliver_inbound alive bus topic d.1).0 topic (call r).0
        (finish-Reach r.moves h))
]
