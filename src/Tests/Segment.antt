-- ===== src/Tests/Segment.antt =====
-- shm_ring.h and shm_segment.cpp: a segment of four slots of 100 bytes.
use mini_middleware.Prelude.{
  ◌+◌, ◌%◌, ◌≤◌, ◌≡◌, ◌≢◌, [], ◌∷◌, true, false, some, Bytes, codes, arith,
}
use mini_middleware.Transport.ShmRing.Layout.{
  slot_offset, slot_data, bytes_needed, sizeof_header, cache_line, slots_do_not_overlap,
}
use mini_middleware.Transport.ShmSegment.{Resources, create, open_segment, dispose}
use mini_middleware.Transport.ShmSegment.Ownership.{after_create, handles_release_all}

slots_do_not_overlap_example :
    (sizeof_header ≤ slot_offset 100 0)
    × (slot_offset 100 0 % cache_line ≡ 0)
    × (slot_data 100 0 + 100 ≤ slot_offset 100 1)
    × (slot_data 100 1 + 100 ≤ bytes_needed 4 100)
slots_do_not_overlap_example =
    slots_do_not_overlap 4 100 0 1 (omega arith) (omega arith) (omega arith) (omega arith)

-- Standard input is open, and another segment exists.
abbrev before : Resources
before = record { descriptors = 0 ∷ []; mappings = []; names = codes "/mm.1.a" ∷ [] }

abbrev segment_name : Bytes
segment_name = codes "/mm.7.chat"

segment_name-is_nonempty : segment_name ≢ []
segment_name-is_nonempty h = cc

-- The creation succeeds; the opening finds no ring yet.
handles_release_all_example :
    (dispose (create segment_name 4 100 (some 3) true (some 4096) before)
      ≡ after_create segment_name (some 3) before)
    × (dispose (open_segment segment_name (some 3) (some 832) (some 4096) false before) ≡ before)
handles_release_all_example =
    handles_release_all segment_name 4 100 (some 3) (some 832) (some 4096) true false before
      segment_name-is_nonempty
