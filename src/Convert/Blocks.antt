-- ===== src/Convert/Blocks.antt =====
-- The blocks of the experts: their content, `build_units` of src/convert/writer.cpp, written to the strips and
-- read again for one branch.
use stream_mo_e.Common.{
  ◌/◌, ℕ, ◌+◌, ◌-◌, ◌%◌, ◌^◌, ◌≤◌, ◌<◌, ◌≡◌, sym, subst, ◌⊎◌, inl, inr, some, List, [], ◌∷◌, arith,
  length, get_or, All,
}
use stream_mo_e.Strips.{
  SrcSeg, block_align, align_up, split_units, file_slices, strip_range_to_segs,
}
use stream_mo_e.Layout.{ExpertTensor, branch_offs}
use stream_mo_e.Convert.{Content, Bytes, written_file}
use stream_mo_e.Convert.Segments.{SrcsSupply, Supplies}
use stream_mo_e.Convert.Written.{AreConsistent}
use stream_mo_e.Convert.ReadBack.{AllRead, write_v3_chunk-read}

-- The content of a block: each branch at its offset, with the sources of the expert's slice.
pub block_content : List ExpertTensor → List ℕ → List (List SrcSeg) → List Content
block_content (e ∷ es) (off ∷ offs) (ss ∷ sources) =
    record { log_off = off; len = e.per_expert; srcs = ss } ∷ block_content es offs sources
block_content _ _ _ = []

-- Where two sources of a slice have a byte for a position, it is the same byte.
abbrev pub SliceAgrees : (ℕ → Bytes) → List SrcSeg → Type 0
SliceAgrees files ss =
    (rel f o f' o' : ℕ) → SrcsSupply rel ss f o → SrcsSupply rel ss f' o' → files f o ≡ files f' o'

le-align_up : (n : ℕ) → n ≤ align_up n block_align
unfolding align_up
le-align_up n = omega arith

supplied_from :
    (es : List ExpertTensor) (boff : ℕ) (sources : List (List SrcSeg)) (x f o : ℕ)
    → Supplies (block_content es (branch_offs boff es) sources) x f o
    → boff ≤ x
unfolding block_content branch_offs
supplied_from [] boff sources x f o h = absurd h
supplied_from (e ∷ es) boff [] x f o h = absurd h
supplied_from (e ∷ es) boff (ss ∷ sources) x f o (inl (lo, _, _)) = lo
supplied_from (e ∷ es) boff (ss ∷ sources) x f o (inr h) = omega (
  arith,
  supplied_from es (align_up (boff + e.per_expert) block_align) sources x f o h,
  le-align_up (boff + e.per_expert),
)

-- The branches of a block do not overlap.
block_content-AreConsistent :
    (files : ℕ → Bytes) (es : List ExpertTensor) (boff : ℕ) (sources : List (List SrcSeg))
    → All (SliceAgrees files) sources
    → AreConsistent files (block_content es (branch_offs boff es) sources)
unfolding block_content branch_offs
block_content-AreConsistent files [] boff sources h x f o f' o' a b = absurd a
block_content-AreConsistent files (e ∷ es) boff [] h x f o f' o' a b = absurd a
block_content-AreConsistent files (e ∷ es) boff (ss ∷ sources) h x f o f' o' (inl (_, _, a))
      (inl (_, _, b)) =
    h.0 (x - boff) f o f' o' a b
block_content-AreConsistent files (e ∷ es) boff (ss ∷ sources) h x f o f' o' (inl (_, hi, _))
      (inr b) =
    absurd (
      omega (
        arith,
        supplied_from es (align_up (boff + e.per_expert) block_align) sources x f' o' b,
        le-align_up (boff + e.per_expert),
        hi,
      ))
block_content-AreConsistent files (e ∷ es) boff (ss ∷ sources) h x f o f' o' (inr a)
      (inl (_, hi, _)) =
    absurd (
      omega (
        arith,
        supplied_from es (align_up (boff + e.per_expert) block_align) sources x f o a,
        le-align_up (boff + e.per_expert),
        hi,
      ))
block_content-AreConsistent files (e ∷ es) boff (ss ∷ sources) h x f o f' o' (inr a) (inr b) =
    block_content-AreConsistent files es (align_up (boff + e.per_expert) block_align) sources h.1 x
      f o f' o' a b

-- Branch `j` of the block: its offset, its bytes for an expert, and the sources of those.
abbrev pub IsBranch : List ExpertTensor → ℕ → List (List SrcSeg) → ℕ → ℕ → List SrcSeg → Type 0
IsBranch [] boff sources off size ss = ⊥
IsBranch (e ∷ es) boff [] off size ss = ⊥
IsBranch (e ∷ es) boff (s ∷ sources) off size ss =
    ((boff ≡ off) × (e.per_expert ≡ size) × (s ≡ ss))
    ⊎ IsBranch es (align_up (boff + e.per_expert) block_align) sources off size ss

branch-Supplies :
    (es : List ExpertTensor) (boff : ℕ) (sources : List (List SrcSeg)) (off size : ℕ)
    (ss : List SrcSeg) (x f o : ℕ)
    → IsBranch es boff sources off size ss
    → off ≤ x
    → x < off + size
    → SrcsSupply (x - off) ss f o
    → Supplies (block_content es (branch_offs boff es) sources) x f o
unfolding block_content branch_offs
branch-Supplies [] boff sources off size ss x f o b lo hi h = absurd b
branch-Supplies (e ∷ es) boff [] off size ss x f o b lo hi h = absurd b
branch-Supplies (e ∷ es) boff (s ∷ sources) off size ss x f o (inl (at, long, same)) lo hi h = inl (
  omega arith,
  omega arith,
  subst (λ k. SrcsSupply (x - k) s f o) (sym at)
      (subst (λ l. SrcsSupply (x - off) l f o) (sym same) h),
)
branch-Supplies (e ∷ es) boff (s ∷ sources) off size ss x f o (inr b) lo hi h = inr (
    branch-Supplies es (align_up (boff + e.per_expert) block_align) sources off size ss x f o b lo
      hi h)

-- The segments have, one after another, the bytes that the sources have from the offset on.
abbrev pub AllSliced : (ℕ → Bytes) → List SrcSeg → ℕ → (ℕ → Bytes) → List SrcSeg → ℕ → ℕ → Type 0
AllSliced files ss off outs [] pos stop = pos ≡ stop
AllSliced files ss off outs (s ∷ segs) pos stop =
    ((k f o : ℕ)
      → k < s.len
      → SrcsSupply (pos + k - off) ss f o
      → outs s.file (s.off + k) ≡ files f o)
    × AllSliced files ss off outs segs (pos + s.len) stop

AllRead-le :
    (files : ℕ → Bytes) (content : List Content) (outs : ℕ → Bytes) (segs : List SrcSeg)
    (pos stop : ℕ)
    → AllRead files content outs segs pos stop
    → pos ≤ stop
AllRead-le files content outs [] pos stop h = omega arith
AllRead-le files content outs (s ∷ segs) pos stop h =
    omega (arith, AllRead-le files content outs segs (pos + s.len) stop h.1)

AllRead-AllSliced :
    (files : ℕ → Bytes) (es : List ExpertTensor) (sources : List (List SrcSeg)) (off size : ℕ)
    (ss : List SrcSeg) (outs : ℕ → Bytes) (segs : List SrcSeg) (pos : ℕ)
    → IsBranch es 0 sources off size ss
    → off ≤ pos
    → AllRead files (block_content es (branch_offs 0 es) sources) outs segs pos (off + size)
    → AllSliced files ss off outs segs pos (off + size)
AllRead-AllSliced files es sources off size ss outs [] pos b le h = h
AllRead-AllSliced files es sources off size ss outs (s ∷ segs) pos b le h =
    let content = block_content es (branch_offs 0 es) sources in
    let bound : pos + s.len ≤ off + size =
      AllRead-le files content outs segs (pos + s.len) (off + size) h.1 in
    (
      λ k f o less supplied. (h.0 k less).0 f o (
          branch-Supplies es 0 sources off size ss (pos + k) f o b (omega arith)
            (omega (arith, bound)) supplied),
      AllRead-AllSliced files es sources off size ss outs segs (pos + s.len) b (omega arith) h.1,
    )

-- A branch of an expert's block, written over any number of files without a ratio and read again: the
-- split of the units succeeds, the branch is found as segments, and the bytes of these, one after another, are those that the
-- sources of the expert's slice have. The units are whole blocks, of less than
-- 2^64 bytes and with less than 2^31 blocks for each file, the expert's has the branch inside, and sources of one slice that overlap agree.
pub expert_branch-read :
    (files : ℕ → Bytes) (n : ℕ) (sizes data_offs : List ℕ) (contents : List (List Content))
    (outs : ℕ → Bytes) (u : ℕ) (es : List ExpertTensor) (sources : List (List SrcSeg))
    (off size : ℕ) (ss : List SrcSeg)
    → 0 < n
    → All (λ z. (z % 4096 ≡ 0) × (z < 2 ^ 64) × (z / 4096 / n + 1 < 2 ^ 31)) sizes
    → length contents ≡ length sizes
    → u < length sizes
    → off + size ≤ get_or sizes u 0
    → get_or contents u [] ≡ block_content es (branch_offs 0 es) sources
    → All (SliceAgrees files) sources
    → IsBranch es 0 sources off size ss
    → (sps : List (List ℕ)) × (split_units n sizes ≡ some sps)
      × ((segs : List SrcSeg) × (strip_range_to_segs
              (record { chunk_slices = file_slices sps 0 n; data_offs = data_offs })
              u
              off
              size
            ≡ some segs)
          × AllSliced files ss off
              (written_file files (file_slices sps 0 n) data_offs contents outs)
              segs
              off
              (off + size))
expert_branch-read files n sizes data_offs contents outs u es sources off size ss some_files aligned
      same low within block agree branch =
    let consistent : AreConsistent files (get_or contents u []) =
      subst (AreConsistent files) (sym block)
        (block_content-AreConsistent files es 0 sources agree) in
    let (sps, split, (segs, found, all)) =
      write_v3_chunk-read files n sizes data_offs contents outs u off size some_files aligned same
        low within consistent in
    let written = written_file files (file_slices sps 0 n) data_offs contents outs in
    (
      sps,
      split,
      (
        segs,
        found,
        AllRead-AllSliced files es sources off size ss written segs off branch (omega arith)
            (subst (λ c. AllRead files c written segs off (off + size)) block all),
      ),
    )
