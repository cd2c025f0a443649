-- ===== src/Convert.antt =====
-- src/convert/writer.cpp, `write_v3_chunk`: the bytes that the converter writes to one of the files of a model.
-- A file is a function from positions to bytes, so that the buffers of the copying and the errors of the
-- operating system are left out. Sums of offsets are taken to stay below 2^64.
pub mod Segments
pub mod Ops
pub mod Fills
pub mod Gaps
pub mod Memory
pub mod Places
pub mod Written
pub mod ReadBack
pub mod Blocks
mod Tests
use stream_mo_e.Common.{
  ℕ, ◌+◌, ◌-◌, ◌*◌, min, max, Bool, ◌&&◌, ◌||◌, List, [], ◌∷◌, ◌++◌, map, if◌then◌else◌, ltb, leb,
  ◌==◌, get_or, take,
}
use stream_mo_e.Strips.{SrcSeg, block_align, sum, counts_of}

-- `content_item_t`
pub record Content : Type 0 where
  pub log_off : ℕ
  pub len : ℕ
  pub srcs : List SrcSeg

-- `copy_op_t`
pub record CopyOp : Type 0 where
  pub file : ℕ
  pub src_off : ℕ
  pub len : ℕ
  pub dst_rel : ℕ

-- The part of a source segment between two positions of the content; `dst` is the place of the first.
abbrev pub seg_op : ℕ → ℕ → ℕ → SrcSeg → CopyOp
seg_op rel_start rel_end dst src =
    let a = max rel_start src.in_off in
    let b = min rel_end (src.in_off + src.len) in
    record {
      file = src.file;
      src_off = src.off + (a - src.in_off);
      len = b - a;
      dst_rel = dst + (a - rel_start);
    }

pub seg_ops : ℕ → ℕ → ℕ → SrcSeg → List CopyOp
seg_ops rel_start rel_end dst src =
    if leb (src.in_off + src.len) rel_start || leb rel_end src.in_off
    then []
    else seg_op rel_start rel_end dst src ∷ []

pub srcs_ops : ℕ → ℕ → ℕ → List SrcSeg → List CopyOp
srcs_ops rel_start rel_end dst [] = []
srcs_ops rel_start rel_end dst (src ∷ srcs) =
    seg_ops rel_start rel_end dst src ++ srcs_ops rel_start rel_end dst srcs

pub item_ops : ℕ → ℕ → ℕ → Content → List CopyOp
item_ops start len dst_base item =
    let c_end = item.log_off + item.len in
    let s = max start item.log_off in
    let e = min (start + len) c_end in
    if leb c_end start || leb (start + len) item.log_off
    then []
    else srcs_ops (s - item.log_off) (e - item.log_off) (dst_base + (s - start)) item.srcs

pub content_to_ops : List Content → ℕ → ℕ → ℕ → List CopyOp
content_to_ops [] start len dst_base = []
content_to_ops (item ∷ content) start len dst_base =
    item_ops start len dst_base item ++ content_to_ops content start len dst_base

-- An interval of the strip, from its first byte to behind its last one.
pub record Interval : Type 0 where
  pub first : ℕ
  pub second : ℕ

pub covered_by : ℕ → List CopyOp → List Interval
covered_by base [] = []
covered_by base (op ∷ ops) =
    record { first = op.dst_rel - base; second = op.dst_rel - base + op.len } ∷ covered_by base ops

pub insert_interval : Interval → List Interval → List Interval
insert_interval c [] = c ∷ []
insert_interval c (d ∷ ds) =
    if ltb c.first d.first || (c.first == d.first && leb c.second d.second)
    then c ∷ d ∷ ds
    else d ∷ insert_interval c ds

pub sort_intervals : List Interval → List Interval
sort_intervals [] = []
sort_intervals (c ∷ cs) = insert_interval c (sort_intervals cs)

-- An offset in the file, and a number of bytes that are filled with 0.
pub record Fill : Type 0 where
  pub at : ℕ
  pub len : ℕ

-- The complement of the sorted intervals, from `cursor` on.
pub fills_from : ℕ → ℕ → ℕ → List Interval → List Fill
fills_from base strip_len cursor [] =
    if ltb cursor strip_len
    then record { at = base + cursor; len = strip_len - cursor } ∷ []
    else []
fills_from base strip_len cursor (c ∷ cs) =
    let rest = fills_from base strip_len (max cursor c.second) cs in
    if ltb cursor c.first
    then record { at = base + cursor; len = c.first - cursor } ∷ rest
    else rest

-- What is done for the strip of one unit.
pub strip_ops : List Content → ℕ → ℕ → ℕ → List CopyOp
strip_ops content log_start strip_len base =
    if strip_len == 0 then [] else content_to_ops content log_start strip_len base

pub strip_fills : List Content → ℕ → ℕ → ℕ → List Fill
strip_fills content log_start strip_len base =
    if strip_len == 0
    then []
    else fills_from base strip_len 0
        (sort_intervals (covered_by base (content_to_ops content log_start strip_len base)))

-- A unit with the blocks that the file has of it, and the number of its blocks in the files before.
pub record UnitStrip : Type 0 where
  pub content : List Content
  pub blocks : ℕ
  pub before : ℕ

-- The loop over the units; `cum` is the number of blocks of the units before.
pub file_ops : ℕ → List UnitStrip → List CopyOp
file_ops cum [] = []
file_ops cum (u ∷ us) =
    strip_ops u.content (u.before * block_align) (u.blocks * block_align) (cum * block_align)
    ++ file_ops (cum + u.blocks) us

pub file_fills : ℕ → List UnitStrip → List Fill
file_fills cum [] = []
file_fills cum (u ∷ us) =
    strip_fills u.content (u.before * block_align) (u.blocks * block_align) (cum * block_align)
    ++ file_fills (cum + u.blocks) us

abbrev pub Bytes : Type 0
Bytes = ℕ → ℕ

-- The bytes from `at` on are written, those of `source` from `from` on.
pub write_bytes : Bytes → ℕ → ℕ → ℕ → Bytes → Bytes
write_bytes source from at len out p =
    if leb at p && ltb p (at + len) then source (from + (p - at)) else out p

pub do_copy : (ℕ → Bytes) → ℕ → List CopyOp → Bytes → Bytes
do_copy files data_offset [] out = out
do_copy files data_offset (op ∷ ops) out =
    do_copy files data_offset ops
      (write_bytes (files op.file) op.src_off (data_offset + op.dst_rel) op.len out)

pub do_fill : ℕ → List Fill → Bytes → Bytes
do_fill data_offset [] out = out
do_fill data_offset (f ∷ fs) out =
    do_fill data_offset fs (write_bytes (λ p. 0) 0 (data_offset + f.at) f.len out)

-- What `write_v3_chunk` makes of a file that has its header.
pub write_strips : (ℕ → Bytes) → ℕ → List UnitStrip → Bytes → Bytes
write_strips files data_offset us out =
    do_fill data_offset (file_fills 0 us) (do_copy files data_offset (file_ops 0 us) out)

-- The strip of unit `u` in file `i`; `slices` has the blocks of each unit for each file.
abbrev pub strip_of : List (List ℕ) → ℕ → ℕ → List Content → UnitStrip
strip_of slices i u content = record {
  content = content;
  blocks = get_or (get_or slices i []) u 0;
  before = sum (take i (counts_of slices u));
}

pub unit_strips : List (List ℕ) → ℕ → ℕ → List (List Content) → List UnitStrip
unit_strips slices i u [] = []
unit_strips slices i u (content ∷ contents) =
    strip_of slices i u content ∷ unit_strips slices i (u + 1) contents

-- File `i` after `write_v3_chunk`, where `outs` are the files as their headers leave them.
pub written_file :
    (ℕ → Bytes) → List (List ℕ) → List ℕ → List (List Content) → (ℕ → Bytes) → ℕ → Bytes
written_file files slices data_offs contents outs i =
    write_strips files (get_or data_offs i 0) (unit_strips slices i 0 contents) (outs i)
