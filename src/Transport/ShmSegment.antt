-- ===== src/Transport/ShmSegment.antt =====
-- transport/include/transport/shm_segment.h and transport/src/shm_segment.cpp: the handle of a segment
-- in shared memory. What the system calls return is an argument; what they acquire and release is
-- kept in `Resources`.
pub mod Ownership
use mini_middleware.Prelude.{
  ℕ, List, [], ◌∷◌, Bool, true, false, Option, none, some, Bytes, bytes_eq, ltb, ◌==◌,
  if◌then◌else◌, not, ◌&&◌,
}
use mini_middleware.Transport.ShmRing.Layout.{bytes_needed, sizeof_header}

-- The process's descriptors and mappings, and the names of the segments that the system holds.
pub record Resources : Type 0 where
  pub descriptors : List ℕ
  pub mappings : List (ℕ × ℕ)
  pub names : List Bytes

-- The ring's own fields are those of ShmRing.
pub record Segment : Type 0 where
  pub name : Bytes
  pub fd : ℕ
  pub addr : ℕ
  pub size : ℕ
  pub owner : Bool

abbrev drop_fd : ℕ → List ℕ → List ℕ
drop_fd fd [] = []
drop_fd fd (f ∷ fs) = let rest = drop_fd fd fs in if f == fd then fs else f ∷ rest

abbrev drop_mapping : ℕ → ℕ → List (ℕ × ℕ) → List (ℕ × ℕ)
drop_mapping addr size [] = []
drop_mapping addr size ((a, n) ∷ ms) =
    let rest = drop_mapping addr size ms in if a == addr && n == size then ms else (a, n) ∷ rest

abbrev drop_name : Bytes → List Bytes → List Bytes
drop_name name [] = []
drop_name name (n ∷ ns) = let rest = drop_name name ns in if bytes_eq n name then rest else n ∷ rest

abbrev pub shm_open : ℕ → Resources → Resources
shm_open fd r = record r { descriptors = fd ∷ r.descriptors }

-- With O_CREAT: the name exists afterwards, once.
abbrev pub shm_create : Bytes → ℕ → Resources → Resources
shm_create name fd r = record r {
  descriptors = fd ∷ r.descriptors;
  names = name ∷ drop_name name r.names;
}

abbrev pub mmap : ℕ → ℕ → Resources → Resources
mmap addr size r = record r { mappings = (addr, size) ∷ r.mappings }

abbrev pub close : ℕ → Resources → Resources
close fd r = record r { descriptors = drop_fd fd r.descriptors }

abbrev pub munmap : ℕ → ℕ → Resources → Resources
munmap addr size r = record r { mappings = drop_mapping addr size r.mappings }

abbrev pub shm_unlink : Bytes → Resources → Resources
shm_unlink name r = record r { names = drop_name name r.names }

create_mapping : Bytes → ℕ → ℕ → Option ℕ → Resources → Option Segment × Resources
create_mapping name fd bytes none r = (none, shm_unlink name (close fd r))
create_mapping name fd bytes (some addr) r = (
  some (record { name = name; fd = fd; addr = addr; size = bytes; owner = true }),
  mmap addr bytes r,
)

create_sized : Bytes → ℕ → ℕ → Bool → Option ℕ → Resources → Option Segment × Resources
unfolding create_mapping
create_sized name fd bytes false mapped r = (none, shm_unlink name (close fd r))
create_sized name fd bytes true mapped r = create_mapping name fd bytes mapped r

-- `opened`, `truncated` and `mapped` are the results of shm_open, ftruncate and mmap.
unfoldable pub create :
    Bytes → ℕ → ℕ → Option ℕ → Bool → Option ℕ → Resources → Option Segment × Resources
unfolding create_sized
create name slot_count slot_size none truncated mapped r = (none, r)
create name slot_count slot_size (some fd) truncated mapped r =
    create_sized name fd (bytes_needed slot_count slot_size) truncated mapped (shm_create name fd r)

open_attached : Bytes → ℕ → ℕ → ℕ → Bool → Resources → Option Segment × Resources
open_attached name fd bytes addr false r = (none, close fd (munmap addr bytes r))
open_attached name fd bytes addr true r =
    (some (record { name = name; fd = fd; addr = addr; size = bytes; owner = false }), r)

open_mapping : Bytes → ℕ → ℕ → Option ℕ → Bool → Resources → Option Segment × Resources
unfolding open_attached
open_mapping name fd bytes none valid r = (none, close fd r)
open_mapping name fd bytes (some addr) valid r =
    open_attached name fd bytes addr valid (mmap addr bytes r)

open_sized : Bytes → ℕ → Option ℕ → Option ℕ → Bool → Resources → Option Segment × Resources
unfolding open_mapping
open_sized name fd none mapped valid r = (none, close fd r)
open_sized name fd (some bytes) mapped valid r =
    if ltb bytes sizeof_header
    then (none, close fd r)
    else open_mapping name fd bytes mapped valid r

-- `opened`, `size` and `mapped` are the results of shm_open, fstat and mmap; `valid` says whether the
-- mapped ring's magic number is there.
unfoldable pub open_segment :
    Bytes → Option ℕ → Option ℕ → Option ℕ → Bool → Resources → Option Segment × Resources
unfolding open_sized
open_segment name none size mapped valid r = (none, r)
open_segment name (some fd) size mapped valid r =
    open_sized name fd size mapped valid (shm_open fd r)

-- The destructor. A segment of `create` or `open` has an address and a descriptor; an empty name is
-- not unlinked.
unfoldable pub destroy : Segment → Resources → Resources
destroy s r =
    let released = close s.fd (munmap s.addr s.size r) in
    if s.owner && not (is_empty s.name) then shm_unlink s.name released else released
  where
    is_empty : Bytes → Bool
    is_empty [] = true
    is_empty (c ∷ name) = false

-- The handle goes out of scope, if there is one.
abbrev pub dispose : Option Segment × Resources → Resources
dispose (none, r) = r
dispose (some s, r) = destroy s r
