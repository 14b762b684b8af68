-- ===== src/Transport/ShmSegment/Ownership.antt =====
-- shm_segment.cpp: a handle releases what it acquired.
use mini_middleware.Prelude.{
  inl, inr, ℕ, ◌≡◌, ◌≢◌, refl, ap, ap₂, ◌∙◌, List, [], ◌∷◌, Bool, true, false, Option, none, some,
  Bytes, bytes_eq, bytes_eq_refl, ltb, ◌==◌, arith, Bool-cases,
}
use mini_middleware.Transport.ShmRing.Layout.{bytes_needed, sizeof_header}
use mini_middleware.Transport.ShmSegment.{
  Resources, drop_fd, drop_mapping, drop_name, shm_open, shm_create, mmap, close, munmap,
  shm_unlink, create_mapping, create_sized, create, open_attached, open_mapping, open_sized,
  open_segment, destroy, dispose,
}

-- The name is not there.
abbrev pub without : Bytes → Resources → Resources
without name r = record r { names = drop_name name r.names }

drop_fd_first : (fd : ℕ) (fs : List ℕ) → drop_fd fd (fd ∷ fs) ≡ fs
drop_fd_first fd fs = let same : (fd == fd) ≡ true = ground arith in rw same refl

drop_mapping_first :
    (addr size : ℕ) (ms : List (ℕ × ℕ)) → drop_mapping addr size ((addr, size) ∷ ms) ≡ ms
drop_mapping_first addr size ms =
    let same : (addr == addr) ≡ true = ground arith in
    let also : (size == size) ≡ true = ground arith in rw (same, also) refl

drop_name_first : (name : Bytes) (ns : List Bytes) → drop_name name (name ∷ ns) ≡ drop_name name ns
drop_name_first name ns = rw (bytes_eq_refl name) refl

drop_name_twice :
    (name : Bytes) (ns : List Bytes) → drop_name name (drop_name name ns) ≡ drop_name name ns
drop_name_twice name [] = refl
drop_name_twice name (n ∷ ns) = elim (Bool-cases (bytes_eq n name)) [
  | inl same ↦ rw same (drop_name_twice name ns)
  | inr other ↦ rw (other, other) (ap (◌∷◌ n) (drop_name_twice name ns))
]

-- Closing what was opened last, and unlinking what was created.
given_up :
    (name : Bytes) (fd : ℕ) (r : Resources)
    → shm_unlink name (close fd (shm_create name fd r)) ≡ without name r
given_up name fd r =
    ap₂ (λ ds ns. record r { descriptors = ds; names = ns }) (drop_fd_first fd r.descriptors)
      (drop_name_first name (drop_name name r.names) ∙ drop_name_twice name r.names)

closed_again : (fd : ℕ) (r : Resources) → close fd (shm_open fd r) ≡ r
closed_again fd r = ap (λ ds. record r { descriptors = ds }) (drop_fd_first fd r.descriptors)

unmapped_again : (addr size : ℕ) (r : Resources) → munmap addr size (mmap addr size r) ≡ r
unmapped_again addr size r =
    ap (λ ms. record r { mappings = ms }) (drop_mapping_first addr size r.mappings)

-- What is left of `create` once its handle is gone.
abbrev pub after_create : Bytes → Option ℕ → Resources → Resources
after_create name none r = r
after_create name (some fd) r = without name r

create-dispose :
    (name : Bytes) (slot_count slot_size : ℕ) (opened : Option ℕ) (truncated : Bool)
    (mapped : Option ℕ) (r : Resources)
    → name ≢ []
    → dispose (create name slot_count slot_size opened truncated mapped r)
      ≡ after_create name opened r
unfolding create create_sized create_mapping destroy
create-dispose name slot_count slot_size none truncated mapped r full = refl
create-dispose name slot_count slot_size (some fd) false mapped r full = given_up name fd r
create-dispose name slot_count slot_size (some fd) true none r full = given_up name fd r
create-dispose [] slot_count slot_size (some fd) true (some addr) r full = elim (full refl) [ ]
create-dispose (c ∷ name) slot_count slot_size (some fd) true (some addr) r full =
    let bytes = bytes_needed slot_count slot_size in
    ap (λ q. shm_unlink (c ∷ name) (close fd q))
      (unmapped_again addr bytes (shm_create (c ∷ name) fd r))
    ∙ given_up (c ∷ name) fd r

open_segment-dispose :
    (name : Bytes) (opened size mapped : Option ℕ) (valid : Bool) (r : Resources)
    → dispose (open_segment name opened size mapped valid r) ≡ r
unfolding open_segment open_sized open_mapping open_attached destroy
open_segment-dispose name none size mapped valid r = refl
open_segment-dispose name (some fd) none mapped valid r = closed_again fd r
open_segment-dispose name (some fd) (some bytes) mapped valid r =
    elim (Bool-cases (ltb bytes sizeof_header)) [
      | inl small ↦ simp small (closed_again fd r)
      | inr whole ↦ simp whole (go mapped valid)
    ]
  where
    go :
        (mapped : Option ℕ) (valid : Bool)
        → dispose (open_mapping name fd bytes mapped valid (shm_open fd r)) ≡ r
    go none valid = closed_again fd r
    go (some addr) false =
        ap (close fd) (unmapped_again addr bytes (shm_open fd r)) ∙ closed_again fd r
    go (some addr) true =
        ap (close fd) (unmapped_again addr bytes (shm_open fd r)) ∙ closed_again fd r

-- Whatever shm_open, ftruncate, fstat and mmap return and whether or not a ring is there: once the
-- handle that `create` gives, if any, is destroyed, the process has the descriptors and mappings of
-- before and the segment's nonempty name is gone, or nothing at all has changed where shm_open
-- failed; and once the handle that `open` gives, if any, is destroyed, nothing has changed.
pub handles_release_all :
    (name : Bytes) (slot_count slot_size : ℕ) (opened size mapped : Option ℕ)
    (truncated valid : Bool) (r : Resources)
    → name ≢ []
    → (dispose (create name slot_count slot_size opened truncated mapped r)
        ≡ after_create name opened r)
      × (dispose (open_segment name opened size mapped valid r) ≡ r)
handles_release_all name slot_count slot_size opened size mapped truncated valid r full = (
  create-dispose name slot_count slot_size opened truncated mapped r full,
  open_segment-dispose name opened size mapped valid r,
)
