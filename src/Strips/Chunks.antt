-- ===== src/Strips/Chunks.antt =====
-- The strips that `write_v3_chunk` of src/convert/writer.cpp writes, read by `strip_range_to_segs` of
-- src/loader/model_builder.cpp.
use stream_mo_e.Common.{
  ℕ, zero, suc, ◌+◌, ◌*◌, ◌/◌, ◌%◌, ◌^◌, ◌≤◌, ◌<◌, ◌≡◌, refl, sym, ap, ap₂, ◌∙◌, true, some, List,
  [], ◌∷◌, map, ◌==◌, ==_iff, arith, length, get_or, drop, All,
}
use stream_mo_e.Strips.{
  Strips, SrcSeg, sum, counts_of, split_units, file_slices, strip_range_to_segs,
}
use stream_mo_e.Strips.Cover.{SegsFrom, strip_range_to_segs-From}
use stream_mo_e.Strips.Split.{split_blocks-even}

-- The split of each unit has a number for each file, and they add up to the unit.
abbrev AreSplit : ℕ → List ℕ → List (List ℕ) → Type 0
AreSplit n [] [] = Unit
AreSplit n (size ∷ sizes) (sp ∷ sps) =
    (length sp ≡ n) × (sum sp * 4096 ≡ size) × (size < 2 ^ 64) × AreSplit n sizes sps
AreSplit n _ _ = ⊥

split_units-AreSplit :
    (n : ℕ) (sizes : List ℕ)
    → 0 < n
    → All (λ size. (size % 4096 ≡ 0) × (size < 2 ^ 64) × (size / 4096 / n + 1 < 2 ^ 31)) sizes
    → (sps : List (List ℕ)) × (split_units n sizes ≡ some sps) × AreSplit n sizes sps
unfolding split_units
split_units-AreSplit n [] files aligned = ([], refl, tt)
split_units-AreSplit n (size ∷ sizes) files aligned =
    let whole : (size % 4096 == 0) ≡ true = (==_iff (size % 4096) 0).1 aligned.0.0 in
    let (sp, found, long, total, _) =
      split_blocks-even (size / 4096) n files (omega (arith, aligned.0.1)) aligned.0.2 in
    let (sps, rest, split) = split_units-AreSplit n sizes files aligned.1 in
    (sp ∷ sps, rw (whole, found, rest) refl, (long, omega arith, aligned.0.1, split))

-- The blocks of a unit in the files from number `i` on.
abbrev picks : List ℕ → ℕ → ℕ → List ℕ
picks sp i zero = []
picks sp i (suc n) = get_or sp i 0 ∷ picks sp (i + 1) n

drop-get :
    (sp : List ℕ) (i : ℕ) → i < length sp → sum (drop i sp) ≡ get_or sp i 0 + sum (drop (i + 1) sp)
drop-get [] i h = absurd (omega arith)
drop-get (x ∷ xs) zero h = refl
drop-get (x ∷ xs) (suc i) h =
    let same : suc (i + 1) ≡ suc i + 1 = omega arith in
    drop-get xs i (omega arith) ∙ ap (λ z. get_or xs i 0 + sum (drop z (x ∷ xs))) same

drop_all : (sp : List ℕ) (i : ℕ) → i ≡ length sp → sum (drop i sp) ≡ 0
drop_all [] zero h = refl
drop_all [] (suc i) h = refl
drop_all (x ∷ xs) zero h = absurd (omega arith)
drop_all (x ∷ xs) (suc i) h = drop_all xs i (omega arith)

sum-picks : (sp : List ℕ) (n i : ℕ) → i + n ≡ length sp → sum (picks sp i n) ≡ sum (drop i sp)
sum-picks sp zero i h = sym (drop_all sp i (omega arith))
sum-picks sp (suc n) i h =
    omega (arith, sum-picks sp n (i + 1) (omega arith), drop-get sp i (omega arith))

get-map :
    (sps : List (List ℕ)) (i u : ℕ)
    → u < length sps
    → get_or (map (λ sp. get_or sp i 0) sps) u 0 ≡ get_or (get_or sps u []) i 0
get-map [] i u h = absurd (omega arith)
get-map (sp ∷ sps) i zero h = refl
get-map (sp ∷ sps) i (suc u) h = get-map sps i u (omega arith)

counts_of-file_slices :
    (sps : List (List ℕ)) (u n i : ℕ)
    → u < length sps
    → counts_of (file_slices sps i n) u ≡ picks (get_or sps u []) i n
unfolding counts_of file_slices
counts_of-file_slices sps u zero i h = refl
counts_of-file_slices sps u (suc n) i h =
    ap₂ ◌∷◌ (get-map sps i u h) (counts_of-file_slices sps u n (i + 1) h)

split_at :
    (n : ℕ) (sizes : List ℕ) (sps : List (List ℕ)) (u : ℕ)
    → AreSplit n sizes sps
    → u < length sizes
    → (u < length sps)
      × (length (get_or sps u []) ≡ n)
      × (sum (get_or sps u []) * 4096 ≡ get_or sizes u 0)
      × (get_or sizes u 0 < 2 ^ 64)
split_at n [] sps u h low = absurd (omega arith)
split_at n (size ∷ sizes) [] u h low = absurd h
split_at n (size ∷ sizes) (sp ∷ sps) zero h low = (omega arith, h.0, h.1, h.2)
split_at n (size ∷ sizes) (sp ∷ sps) (suc u) h low =
    let (there, long, total, small) = split_at n sizes sps u h.3 (omega arith) in
    (omega arith, long, total, small)

length-file_slices : (sps : List (List ℕ)) (i n : ℕ) → length (file_slices sps i n) ≡ n
unfolding file_slices
length-file_slices sps i zero = refl
length-file_slices sps i (suc n) = ap suc (length-file_slices sps (i + 1) n)

-- Units of whole blocks, of less than 2^64 bytes and with less than 2^31 blocks for each file, are split without a
-- ratio over any number of files from one on without an error; and an interval of a unit, wherever the data of the files begins, is then found as segments that
-- go from its start to its end, each at the place where the strip of its file has it.
pub split_units-read :
    (n : ℕ) (sizes data_offs : List ℕ) (u rel len : ℕ)
    → 0 < n
    → All (λ size. (size % 4096 ≡ 0) × (size < 2 ^ 64) × (size / 4096 / n + 1 < 2 ^ 31)) sizes
    → u < length sizes
    → rel + len ≤ get_or sizes u 0
    → (sps : List (List ℕ)) × (split_units n sizes ≡ some sps)
      × ((segs : List SrcSeg) × (strip_range_to_segs
              (record { chunk_slices = file_slices sps 0 n; data_offs = data_offs })
              u
              rel
              len
            ≡ some segs)
          × SegsFrom
              (record { chunk_slices = file_slices sps 0 n; data_offs = data_offs })
              u
              rel
              segs
              rel
              (rel + len))
split_units-read n sizes data_offs u rel len files aligned low within =
    let (sps, found, split) = split_units-AreSplit n sizes files aligned in
    let (there, long, total, small) = split_at n sizes sps u split low in
    let m : Strips = record { chunk_slices = file_slices sps 0 n; data_offs = data_offs } in
    let blocks : sum (counts_of (file_slices sps 0 n) u) ≡ sum (get_or sps u []) =
      ap sum (counts_of-file_slices sps u n 0 there)
      ∙ sum-picks (get_or sps u []) n 0 (omega arith) in
    (
      sps,
      found,
      strip_range_to_segs-From m u rel len (omega (arith, length-file_slices sps 0 n))
          (omega (arith, blocks, total)) (omega (arith, blocks, total)),
    )
