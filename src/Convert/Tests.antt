-- ===== src/Convert/Tests.antt =====
-- The strips that src/convert/writer.cpp writes, on a small model.
use stream_mo_e.Common.{
  ℕ, ◌+◌, ◌*◌, ◌≡◌, refl, sym, ◌∙◌, ◌-◌, ltb, if◌then◌else◌, inl, inr, some, List, [], ◌∷◌, arith,
}
use stream_mo_e.Layout.{ExpertTensor, branch_offs}
use stream_mo_e.Convert.Blocks.{block_content, SliceAgrees, AllSliced, expert_branch-read}
use stream_mo_e.Strips.{align_up, SrcSeg, split_units, file_slices, strip_range_to_segs}
use stream_mo_e.Convert.{
  Content, seg_ops, srcs_ops, item_ops, content_to_ops, covered_by, insert_interval, sort_intervals,
  fills_from, strip_fills, Bytes, written_file, UnitStrip, write_strips,
}
use stream_mo_e.Convert.Segments.{Supplies}
use stream_mo_e.Convert.Written.{AreConsistent, IsByte, write_strips-IsByte}
use stream_mo_e.Convert.ReadBack.{AllRead, write_v3_chunk-read}

-- A tensor of 5000 bytes, of which a first part is in file 0 and the rest in file 1.
abbrev tensor : List Content
tensor =
    record {
      log_off = 0;
      len = 5000;
      srcs =
          record { file = 0; off = 100; len = 4000; in_off = 0 }
          ∷ record { file = 1; off = 300; len = 1000; in_off = 4000 }
          ∷ [];
    }
    ∷ []

-- The second block of the unit.
tensor-ops :
    content_to_ops tensor 4096 4096 0
    ≡ record { file = 1; src_off = 396; len = 904; dst_rel = 0 } ∷ []
unfolding content_to_ops item_ops srcs_ops seg_ops
tensor-ops = refl

tensor-fills : strip_fills tensor 4096 4096 0 ≡ record { at = 904; len = 3192 } ∷ []
unfolding strip_fills fills_from sort_intervals insert_interval covered_by content_to_ops item_ops
    srcs_ops seg_ops
tensor-fills = refl

abbrev sources : ℕ → Bytes
sources f p = f + p

tensor_byte : ℕ → ℕ
tensor_byte x = if ltb x 4000 then 100 + x else x - 3699

tensor_supply : (x f o : ℕ) → Supplies tensor x f o → sources f o ≡ tensor_byte x
unfolding tensor_byte
tensor_supply x f o (inl (_, _, inl (_, hi, e, s))) = ground (arith, hi, e, s)
tensor_supply x f o (inl (_, _, inr (inl (lo, _, e, s)))) = ground (arith, lo, e, s)
tensor_supply x f o (inl (_, _, inr (inr nothing))) = absurd nothing
tensor_supply x f o (inr nothing) = absurd nothing

tensor-AreConsistent : AreConsistent sources tensor
tensor-AreConsistent x f o f' o' s s' = tensor_supply x f o s ∙ sym (tensor_supply x f' o' s')

abbrev empty_file : ℕ → Bytes
empty_file i p = 7

write_v3_chunk-read_example :
    (sps : List (List ℕ)) × (split_units 2 (8192 ∷ []) ≡ some sps)
    × ((segs : List SrcSeg) × (strip_range_to_segs
            (record { chunk_slices = file_slices sps 0 2; data_offs = 4096 ∷ 8192 ∷ [] })
            0
            4000
            200
          ≡ some segs)
        × AllRead sources tensor
            (written_file sources (file_slices sps 0 2) (4096 ∷ 8192 ∷ []) (tensor ∷ []) empty_file)
            segs
            4000
            (4000 + 200))
write_v3_chunk-read_example =
    write_v3_chunk-read sources 2 (8192 ∷ []) (4096 ∷ 8192 ∷ []) (tensor ∷ []) empty_file 0 4000 200
      (omega arith) ((refl, omega arith, omega arith), tt) refl (omega arith) (omega arith)
      tensor-AreConsistent

abbrev second_block : UnitStrip
second_block = record { content = tensor; blocks = 1; before = 1 }

write_strips-IsByte_example :
    IsByte sources tensor
      (1 * 4096 + 904)
      (write_strips sources 4096 (second_block ∷ []) (empty_file 0) (4096 + (0 * 4096 + 904)))
write_strips-IsByte_example =
    write_strips-IsByte sources 4096 (second_block ∷ []) (empty_file 0) 0 second_block 904
      (inl (refl, refl)) tensor-AreConsistent (omega arith)

-- Two branches of an expert; the second begins at the next block.
abbrev branches : List ExpertTensor
branches = record { name = []; per_expert = 5000 } ∷ record { name = []; per_expert = 3000 } ∷ []

abbrev slices : List (List SrcSeg)
slices =
    (record { file = 0; off = 100; len = 5000; in_off = 0 } ∷ [])
    ∷ (record { file = 1; off = 300; len = 3000; in_off = 0 } ∷ [])
    ∷ []

one_source : (s : SrcSeg) → SliceAgrees sources (s ∷ [])
one_source s rel f o f' o' (inl (_, _, e, at)) (inl (_, _, e', at')) = omega (arith, e, at, e', at')
one_source s rel f o f' o' (inl _) (inr nothing) = absurd nothing
one_source s rel f o f' o' (inr nothing) _ = absurd nothing

expert_branch-read_example :
    (sps : List (List ℕ)) × (split_units 2 (12288 ∷ []) ≡ some sps)
    × ((segs : List SrcSeg) × (strip_range_to_segs
            (record { chunk_slices = file_slices sps 0 2; data_offs = 4096 ∷ 8192 ∷ [] })
            0
            8192
            3000
          ≡ some segs)
        × AllSliced sources
            (record { file = 1; off = 300; len = 3000; in_off = 0 } ∷ [])
            8192
            (written_file sources
              (file_slices sps 0 2)
              (4096 ∷ 8192 ∷ [])
              (block_content branches (branch_offs 0 branches) slices ∷ [])
              empty_file)
            segs
            8192
            (8192 + 3000))
unfolding align_up
expert_branch-read_example =
    expert_branch-read sources 2 (12288 ∷ []) (4096 ∷ 8192 ∷ [])
      (block_content branches (branch_offs 0 branches) slices ∷ []) empty_file 0 branches slices
      8192 3000 (record { file = 1; off = 300; len = 3000; in_off = 0 } ∷ []) (omega arith)
      ((refl, omega arith, omega arith), tt) refl (omega arith) (omega arith) refl
      (
        one_source (record { file = 0; off = 100; len = 5000; in_off = 0 }),
        (one_source (record { file = 1; off = 300; len = 3000; in_off = 0 }), tt),
      )
      (inr (inl (refl, refl, refl)))
