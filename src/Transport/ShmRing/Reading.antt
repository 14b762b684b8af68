-- ===== src/Transport/ShmRing/Reading.antt =====
-- shm_ring.h: what the reader knows at each point of `read`, whatever the writer does meanwhile.
use mini_middleware.Prelude.{
  subst, ap₂, ℕ, zero, suc, ◌+◌, ◌≤◌, ◌<◌, ◌≡◌, refl, sym, ◌∙◌, List, [], ◌∷◌, ◌++◌, Bytes, arith,
  length, get_or, All,
}
use mini_middleware.Transport.ShmRing.{
  System, ReaderPc, outside, looping, checking, measuring, fetching, verifying, writer_step,
}
use mini_middleware.Transport.ShmRing.Content.{published, Inv, writer_step-Inv}
use mini_middleware.Transport.ShmRing.Writing.{
  IsFresh, Extends, writer_step-Extends, writer_step_private,
}

-- The bytes agree with the front of the message.
abbrev pub IsFront : Bytes → Bytes → Type 0
IsFront out m = (j : ℕ) → j < length out → get_or out j 0 ≡ get_or m j 0

abbrev pub Reads : System → ℕ → ReaderPc → Type 0
Reads s next outside = Unit
Reads s next looping = Unit
Reads s next checking = Unit
Reads s next measuring = next < published s
Reads s next (fetching len out) =
    (next < published s)
    × (length out ≤ len)
    × (IsFresh s next → (len ≡ length (s.log next)) × IsFront out (s.log next))
Reads s next (verifying out) = (next < published s) × (IsFresh s next → out ≡ s.log next)

-- What a step of the writer preserves.
Reads-Extends :
    (s t : System) (next : ℕ) (pc : ReaderPc) → Extends s t → Reads s next pc → Reads t next pc
Reads-Extends s t next outside x r = tt
Reads-Extends s t next looping x r = tt
Reads-Extends s t next checking x r = tt
Reads-Extends s t next measuring x r = omega (arith, x.grows)
Reads-Extends s t next (fetching len out) x r = (
  omega (arith, x.grows, r.0),
  r.1,
  λ f.
      subst (λ m. (len ≡ length m) × IsFront out m) (sym (x.logs next r.0))
        (r.2 (x.fresh next r.0 f)),
)
Reads-Extends s t next (verifying out) x r =
    (omega (arith, x.grows, r.0), λ f. r.1 (x.fresh next r.0 f) ∙ sym (x.logs next r.0))

pub get_or-append_front :
    (xs : Bytes) (c j : ℕ) → j < length xs → get_or (xs ++ (c ∷ [])) j 0 ≡ get_or xs j 0
get_or-append_front [] c j h = absurd (omega arith)
get_or-append_front (x ∷ xs) c zero h = refl
get_or-append_front (x ∷ xs) c (suc j) h = get_or-append_front xs c j (omega arith)

pub get_or-append_last : (xs : Bytes) (c : ℕ) → get_or (xs ++ (c ∷ [])) (length xs) 0 ≡ c
get_or-append_last [] c = refl
get_or-append_last (x ∷ xs) c = get_or-append_last xs c

pub IsFront-whole : (out m : Bytes) → length out ≡ length m → IsFront out m → out ≡ m
IsFront-whole [] [] e h = refl
IsFront-whole [] (x ∷ m) e h = absurd (omega arith)
IsFront-whole (x ∷ out) [] e h = absurd (omega arith)
IsFront-whole (x ∷ out) (y ∷ m) e h =
    ap₂ ◌∷◌ (h 0 (omega arith))
      (IsFront-whole out m (omega arith) (λ j lt. h (suc j) (omega arith)))

-- The positions of what was delivered fall from `n` on.
abbrev pub Falls : ℕ → List (ℕ × Bytes) → Type 0
Falls n [] = Unit
Falls n ((p, m) ∷ ds) = (p < n) × Falls p ds

pub Falls-mono : (n k : ℕ) (ds : List (ℕ × Bytes)) → n ≤ k → Falls n ds → Falls k ds
Falls-mono n k [] h f = tt
Falls-mono n k ((p, m) ∷ ds) h f = (omega (arith, f.0), f.1)

abbrev pub Genuine : System → List (ℕ × Bytes) → Type 0
Genuine s = All (λ (d : ℕ × Bytes). (d.0 < published s) × (d.1 ≡ s.log d.0))

Genuine-Extends : (s t : System) (ds : List (ℕ × Bytes)) → Extends s t → Genuine s ds → Genuine t ds
Genuine-Extends s t [] x g = tt
Genuine-Extends s t (d ∷ ds) x g =
    ((omega (arith, x.grows, g.0.0), g.0.1 ∙ sym (x.logs d.0 g.0.0)), Genuine-Extends s t ds x g.1)

pub record ReaderInv (s : System) : Type 0 where
  pub shared : Inv s
  pub reads : Reads s s.next s.reader
  pub genuine : Genuine s s.delivered
  pub falls : Falls s.next s.delivered
  pub counted : length s.delivered + s.dropped ≡ s.next

pub writer_step-ReaderInv : (s : System) (msg : Bytes) → ReaderInv s → ReaderInv (writer_step s msg)
writer_step-ReaderInv s msg v =
    let x = writer_step-Extends s msg v.shared in
    let same = writer_step_private s msg in
    record {
      shared = writer_step-Inv s msg v.shared;
      reads = rw (same.0, same.1) (Reads-Extends s (writer_step s msg) s.next s.reader x v.reads);
      genuine = rw same.3 (Genuine-Extends s (writer_step s msg) s.delivered x v.genuine);
      falls = rw (same.1, same.3) v.falls;
      counted = rw (same.1, same.2, same.3) v.counted;
    }
