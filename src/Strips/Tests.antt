-- ===== src/Strips/Tests.antt =====
-- The strips of src/loader/model_builder.cpp and src/loader/layout_math.h at two files.
use stream_mo_e.Common.{◌≡◌, refl, some, List, [], ◌∷◌, arith}
use stream_mo_e.Strips.{
  Strips, SrcSeg, counts_of, base_of, cum_of, find_file, strip_seg, strip_loop, strip_range_to_segs,
  find_section, find_section_from,
}
use stream_mo_e.Strips.Cover.{SegsFrom, strip_range_to_segs-From}

-- Unit 1 has two blocks in the first file and one in the second.
abbrev two_files : Strips
two_files = record { chunk_slices = (3 ∷ 2 ∷ []) ∷ (3 ∷ 1 ∷ []) ∷ []; data_offs = 8192 ∷ 4096 ∷ [] }

two_segs :
    strip_range_to_segs two_files 1 5000 6000
    ≡ some (
        record { file = 0; off = 25480; len = 3192; in_off = 0 }
        ∷ record { file = 1; off = 16384; len = 2808; in_off = 3192 }
        ∷ [])
unfolding strip_range_to_segs counts_of base_of cum_of find_file strip_seg strip_loop
two_segs = refl

-- Behind the last block of the unit a difference wraps around, and there is no error.
past_the_strips :
    strip_range_to_segs two_files 1 16384 4096
    ≡ some (record { file = 1; off = 24576; len = 4096; in_off = 0 } ∷ [])
unfolding strip_range_to_segs counts_of base_of cum_of find_file strip_seg strip_loop
past_the_strips = refl

strip_range_to_segs-From_example :
    (segs : List SrcSeg) × (strip_range_to_segs two_files 1 5000 6000 ≡ some segs)
    × SegsFrom two_files 1 5000 segs 5000 11000
unfolding counts_of
strip_range_to_segs-From_example =
    strip_range_to_segs-From two_files 1 5000 6000 (omega arith) (omega arith) (omega arith)

two_sections : find_section (4 ∷ 0 ∷ 100 ∷ 7 ∷ 4096 ∷ 50 ∷ []) 7 ≡ some (1, 4096)
unfolding find_section find_section_from
two_sections = refl
