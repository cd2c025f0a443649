-- ===== src/Strips.antt =====
-- The strips of a model that is cut over several files: `strip_range_to_segs` of
-- src/loader/model_builder.cpp and `sm_split_blocks` of src/loader/layout_math.h. The strip of a file has
-- for each unit, one after another, a number of blocks of 4096 bytes. Differences of two counts wrap
-- around at 2^64, as in the code; sums and products of offsets are taken to stay below it.
pub mod Files
pub mod Cover
pub mod Split
pub mod Chunks
mod Tests
use stream_mo_e.Common.{
  ℕ, zero, suc, ◌+◌, ◌-◌, ◌*◌, ◌/◌, ◌%◌, ◌^◌, min, max, Bool, true, false, Option, none, some, List,
  [], ◌∷◌, ◌++◌, map, if◌then◌else◌, ltb, leb, ◌==◌, length, get_or, take,
}

abbrev pub block_align : ℕ
block_align = 4096

abbrev pub sub64 : ℕ → ℕ → ℕ
sub64 a b = (a + 2 ^ 64 - b) % 2 ^ 64

pub record SrcSeg : Type 0 where
  pub file : ℕ
  pub off : ℕ
  pub len : ℕ
  pub in_off : ℕ

-- The parts of a model that say where its strips are: per file the blocks of each unit, and where the
-- data begins.
pub record Strips : Type 0 where
  pub chunk_slices : List (List ℕ)
  pub data_offs : List ℕ

abbrev pub sum : List ℕ → ℕ
sum [] = 0
sum (x ∷ xs) = x + sum xs

-- The blocks that each file has of the unit, and where they begin in its strip.
pub counts_of : List (List ℕ) → ℕ → List ℕ
counts_of slices unit = map (λ cs. get_or cs unit 0) slices

pub base_of : List (List ℕ) → ℕ → List ℕ
base_of slices unit = map (λ cs. sum (take unit cs)) slices

-- The number of the first block of the unit in each file.
pub cum_of : ℕ → List ℕ → List ℕ
cum_of c [] = []
cum_of c (x ∷ xs) = c ∷ cum_of (c + x) xs

-- while (fi + 1 < N && cur >= cum[fi] + counts[fi]) fi++; the first argument is N - 1 - fi.
pub find_file : ℕ → List ℕ → List ℕ → ℕ → ℕ → ℕ
find_file zero cum counts cur fi = fi
find_file (suc left) cum counts cur fi =
    if leb (get_or cum fi 0 + get_or counts fi 0) cur
    then find_file left cum counts cur (fi + 1)
    else fi

-- The segment of `avail` blocks from block `cur` on, as far as it is in the interval.
pub strip_seg : Strips → List ℕ → ℕ → ℕ → ℕ → ℕ → ℕ → ℕ → List SrcSeg
strip_seg m base rel len cur fi local avail =
    let seg_start = max rel (cur * block_align) in
    let seg_end = min (rel + len) ((cur + avail) * block_align) in
    if ltb seg_start seg_end
    then record {
      file = fi;
      off =
          get_or m.data_offs fi 0
          + get_or base fi 0 * block_align
          + local * block_align
          + (seg_start - cur * block_align);
      len = seg_end - seg_start;
      in_off = seg_start - rel;
    }
      ∷ []
    else []

-- while (cur < end); the code throws where a file has no block left.
pub strip_loop :
    ℕ → Strips → List ℕ → List ℕ → List ℕ → ℕ → ℕ → ℕ → ℕ → List SrcSeg → Option (List SrcSeg)
strip_loop zero m counts base cum rel len end cur segs = if ltb cur end then none else some segs
strip_loop (suc fuel) m counts base cum rel len end cur segs =
    let fi = find_file (length m.chunk_slices - 1) cum counts cur 0 in
    let local = sub64 cur (get_or cum fi 0) in
    let avail = min (sub64 (get_or counts fi 0) local) (end - cur) in
    let rest =
      strip_loop fuel m counts base cum rel len end (cur + avail)
        (segs ++ strip_seg m base rel len cur fi local avail) in
    if ltb cur end then (if avail == 0 then none else rest) else some segs

-- A round goes on by at least one block, so one unit of fuel for each block is enough.
pub strip_range_to_segs : Strips → ℕ → ℕ → ℕ → Option (List SrcSeg)
strip_range_to_segs m unit rel len =
    let counts = counts_of m.chunk_slices unit in
    let end = (rel + len + block_align - 1) / block_align in
    strip_loop (end - rel / block_align) m counts (base_of m.chunk_slices unit) (cum_of 0 counts)
      rel len end (rel / block_align) []

-- `sm_align_up`
unfoldable pub align_up : ℕ → ℕ → ℕ
align_up n a = (n + a - 1) / a * a

-- `static_cast<int>` of a count, as the 64-bit number that it is again in the sum: the low 32 bits, with
-- their sign.
pub as_int : ℕ → ℕ
as_int x = let low = x % 2 ^ 32 in if ltb low (2 ^ 31) then low else low + 18446744069414584320

-- The split without a ratio: the files before number `rem` have one block more.
pub uniform_split : ℕ → ℕ → ℕ → ℕ → List ℕ
unfolding as_int
uniform_split base rem i zero = []
uniform_split base rem i (suc n) =
    as_int (base + (if ltb i rem then 1 else 0)) ∷ uniform_split base rem (i + 1) n

-- `sm_split_blocks` with an empty ratio: none is the error that the sum is not the number of blocks.
pub split_blocks : ℕ → ℕ → Option (List ℕ)
split_blocks b n =
    let out = uniform_split (b / n) (b % n) 0 n in if sum out % 2 ^ 64 == b then some out else none

-- The loop over the units of `write_v3_chunk`: none is an error, of a size that is not a number of blocks
-- or of the split.
pub split_units : ℕ → List ℕ → Option (List (List ℕ))
split_units n [] = some []
split_units n (size ∷ sizes) =
    if size % block_align == 0
    then elim (split_blocks (size / block_align) n) [
      | none ↦ none
      | some sp ↦ elim (split_units n sizes) [ none ↦ none | some sps ↦ some (sp ∷ sps) ]
    ]
    else none

-- slices[i][u] = sp[i], for the files from number `i` on
pub file_slices : List (List ℕ) → ℕ → ℕ → List (List ℕ)
file_slices sps i zero = []
file_slices sps i (suc n) = map (λ sp. get_or sp i 0) sps ∷ file_slices sps (i + 1) n

-- A section of a model: offset, size and number of branches.
pub record Block : Type 0 where
  pub off : ℕ
  pub size : ℕ
  pub nsub : ℕ

unfoldable pub build_blocks : List ℕ → List Block
build_blocks (off ∷ size ∷ nsub ∷ rest) =
    record { off = off; size = size; nsub = nsub % 2 ^ 32 } ∷ build_blocks rest
build_blocks _ = []

-- The position and the offset of the section of a layer, in a table of [layer, off, size].
pub find_section_from : ℕ → List ℕ → ℕ → Option (ℕ × ℕ)
find_section_from idx (layer' ∷ off ∷ size ∷ rest) layer =
    if layer' == layer then some (idx, off) else find_section_from (idx + 1) rest layer
find_section_from idx _ layer = none

pub find_section : List ℕ → ℕ → Option (ℕ × ℕ)
find_section secs layer = find_section_from 0 secs layer

-- The units of the strips: the global section, the layers, their tables, and the blocks.
pub record UnitCounts : Type 0 where
  pub n_c1 : ℕ
  pub n_c4 : ℕ

pub c1_unit : UnitCounts → ℕ → ℕ
c1_unit u li = 1 + li

pub c4_unit : UnitCounts → ℕ → ℕ
c4_unit u mi = 1 + u.n_c1 + mi

pub block_unit : UnitCounts → ℕ → ℕ
block_unit u bi = 1 + u.n_c1 + u.n_c4 + bi
