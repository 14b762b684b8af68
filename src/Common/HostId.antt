-- ===== src/Common/HostId.antt =====
-- common/src/host_id.cpp. The first line of /etc/machine-id, none if it cannot be opened, and the name
-- that gethostname gives, none if it fails, are arguments.
use mini_middleware.Prelude.{
  ℕ, ◌≡◌, ◌≢◌, refl, [], ◌∷◌, ◌++◌, Bool, true, ◌||◌, Option, none, some, Bytes, codes, ◌==◌,
  if◌then◌else◌, All,
}

abbrev pub is_blank : ℕ → Bool
is_blank c = (c == 10) || (c == 13) || (c == b' ')

-- The loop of `pop_back`.
unfoldable pub strip_back : Bytes → Bytes
strip_back [] = []
strip_back (c ∷ s) = after c (strip_back s)
  where
    after : ℕ → Bytes → Bytes
    after c [] = if is_blank c then [] else c ∷ []
    after c (d ∷ r) = c ∷ d ∷ r

from_name : Option Bytes → Bytes
from_name none = codes "unknown-host"
from_name (some []) = codes "unknown-host"
from_name (some (c ∷ name)) = codes "host:" ++ (c ∷ name)

or_name : Option Bytes → Bytes → Bytes
unfolding from_name
or_name name [] = from_name name
or_name name (c ∷ id) = c ∷ id

unfoldable pub compute_host_id : Option Bytes → Option Bytes → Bytes
unfolding or_name from_name
compute_host_id none name = from_name name
compute_host_id (some line) name = or_name name (strip_back line)

strip_back-blank :
    (line blanks : Bytes)
    → All (λ (c : ℕ). is_blank c ≡ true) blanks
    → strip_back (line ++ blanks) ≡ strip_back line
unfolding strip_back
strip_back-blank [] [] h = refl
strip_back-blank [] (c ∷ blanks) h = rw (strip_back-blank [] blanks h.1) (simp (h.0) refl)
strip_back-blank (c ∷ line) blanks h = rw (strip_back-blank line blanks h) refl

from_name-filled : (name : Option Bytes) → from_name name ≢ []
unfolding from_name
from_name-filled none = λ e. cc
from_name-filled (some []) = λ e. cc
from_name-filled (some (c ∷ name)) = λ e. cc

or_name-filled : (name : Option Bytes) (id : Bytes) → or_name name id ≢ []
unfolding or_name
or_name-filled name [] = from_name-filled name
or_name-filled name (c ∷ id) = λ e. cc

or_name-any :
    (name name' : Option Bytes) (id : Bytes) → id ≢ [] → or_name name id ≡ or_name name' id
unfolding or_name
or_name-any name name' [] h = absurd (h refl)
or_name-any name name' (c ∷ id) h = refl

-- Processes of one machine that read the same line of /etc/machine-id, up to blanks and line ends
-- after it, have the same host id if the line has anything else; and no host id is empty, whatever
-- fails, so a data plane that has one compares it.
pub host_id_is_stable :
    (line blanks : Bytes) (name name' : Option Bytes)
    → All (λ (c : ℕ). is_blank c ≡ true) blanks
    → (strip_back line ≢ []
        → compute_host_id (some (line ++ blanks)) name ≡ compute_host_id (some line) name')
      × (compute_host_id (some line) name ≢ [])
      × (compute_host_id none name ≢ [])
unfolding compute_host_id
host_id_is_stable line blanks name name' h = (
  λ some_text.
      rw (strip_back-blank line blanks h) (or_name-any name name' (strip_back line) some_text),
  or_name-filled name (strip_back line),
  from_name-filled name,
)
