-- ===== src/Common/Logger/Placeholders.antt =====
-- logger.h: which values stand where in a message, and the name of a file.
use mini_middleware.Prelude.{
  ℕ, ◌≡◌, ◌≢◌, refl, either_branch, ap, List, [], ◌∷◌, ◌++◌, false, ◌&&◌, Option, none, some, Bytes,
  ◌==◌, All, arith, Bool-cases, inl, inr,
}
use mini_middleware.Common.Logger.{
  basename_from, basename, find_placeholder, further, format_next, format_string,
}

-- A text with no placeholder.
abbrev pub IsPlain : Bytes → Type 0
IsPlain p = find_placeholder p ≡ none

-- Texts with a placeholder between each two.
abbrev pub join : Bytes → List Bytes → Bytes
join p [] = p
join p (q ∷ qs) = p ++ (b'{' ∷ b'}' ∷ join q qs)

-- The same with values in the place of the first placeholders, as far as they go.
abbrev pub fill : Bytes → List Bytes → List Bytes → Bytes
fill p [] values = p
fill p (q ∷ qs) [] = join p (q ∷ qs)
fill p (q ∷ qs) (value ∷ values) = p ++ (value ++ fill q qs values)

some_is_not_none : {x : Bytes × Bytes} → some x ≢ none
some_is_not_none e = cc

none_of_further : (c : ℕ) (o : Option (Bytes × Bytes)) → further c o ≡ none → o ≡ none
unfolding further
none_of_further c none e = refl
none_of_further c (some x) e = absurd (some_is_not_none e)

-- A text that is plain goes on after its first character, and is plain there.
IsPlain-tail :
    (c d : ℕ) (p : Bytes) → IsPlain (c ∷ d ∷ p) → (c == b'{' && d == b'}' ≡ false) × IsPlain (d ∷ p)
unfolding find_placeholder
IsPlain-tail c d p h = elim (Bool-cases (c == b'{' && d == b'}')) [
  | inl e ↦ let found : some ([], p) ≡ none = rw e at h in absurd (some_is_not_none found)
  | inr e ↦
      let later : further c (find_placeholder (d ∷ p)) ≡ none = rw e at h in
      (e, none_of_further c (find_placeholder (d ∷ p)) later)
]

find_placeholder-first :
    (p rest : Bytes) → IsPlain p → find_placeholder (p ++ (b'{' ∷ b'}' ∷ rest)) ≡ some (p, rest)
unfolding find_placeholder further
find_placeholder-first [] rest h = refl
find_placeholder-first (c ∷ []) rest h = ground arith
find_placeholder-first (c ∷ d ∷ p) rest h =
    let (apart, plain) = IsPlain-tail c d p h in
    rw apart (rw (find_placeholder-first (d ∷ p) rest plain) refl)

-- A message with plain texts between its placeholders comes out with the values in the place of the
-- placeholders, in order: those that are too many are left out, and where there are too few the
-- placeholders stay.
pub format_string-join :
    (values : List Bytes) (p : Bytes) (qs : List Bytes)
    → All IsPlain (p ∷ qs)
    → format_string values (join p qs) ≡ fill p qs values
unfolding format_string format_next
format_string-join [] p [] h = refl
format_string-join [] p (q ∷ qs) h = refl
format_string-join (value ∷ values) p [] h = rw (h.0) refl
format_string-join (value ∷ values) p (q ∷ qs) h =
    rw (find_placeholder-first p (join q qs) h.0)
      (ap (λ t. p ++ (value ++ t)) (format_string-join values q qs h.1))

no_slash :
    (best name : Bytes) → All (λ (c : ℕ). c == b'/' ≡ false) name → basename_from best name ≡ best
unfolding basename_from
no_slash best [] h = refl
no_slash best (c ∷ name) h = rw (h.0) (no_slash best name h.1)

after_slash :
    (dir best name : Bytes)
    → All (λ (c : ℕ). c == b'/' ≡ false) name
    → basename_from best (dir ++ (b'/' ∷ name)) ≡ name
unfolding basename_from
after_slash [] best name h = no_slash name name h
after_slash (c ∷ dir) best name h =
    either_branch (λ (t : Bytes). t ≡ name) (c == b'/')
      (after_slash dir (dir ++ (b'/' ∷ name)) name h) (after_slash dir best name h)

-- The name of a file is what stands after the last slash of its path.
pub basename-after :
    (dir name : Bytes)
    → All (λ (c : ℕ). c == b'/' ≡ false) name
    → basename (dir ++ (b'/' ∷ name)) ≡ name
unfolding basename
basename-after dir name h = after_slash dir (dir ++ (b'/' ∷ name)) name h
