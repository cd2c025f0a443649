-- ===== src/Convert/ReadBack.antt =====
-- What `write_v3_chunk` of src/convert/writer.cpp writes, read by `strip_range_to_segs` of
-- src/loader/model_builder.cpp.
use stream_mo_e.Common.{
  ◌/◌, ℕ, zero, suc, ◌+◌, ◌-◌, ◌*◌, ◌%◌, ◌^◌, ◌≤◌, ◌<◌, ◌≡◌, refl, sym, ap, subst, ◌∙◌, inl, inr,
  some, List, [], ◌∷◌, arith, length, get_or, take, All,
}
use stream_mo_e.Strips.{
  Strips, SrcSeg, sum, counts_of, cum_of, split_units, file_slices, strip_range_to_segs,
}
use stream_mo_e.Strips.Files.{length-counts_of, cum-take, get_or-base_of, get_or-counts_of}
use stream_mo_e.Strips.Cover.{InFile, SegsFrom}
use stream_mo_e.Strips.Chunks.{split_units-read}
use stream_mo_e.Convert.{Content, Bytes, strip_of, unit_strips, write_strips, written_file}
use stream_mo_e.Convert.Places.{StripAt}
use stream_mo_e.Convert.Written.{AreConsistent, IsByte, write_strips-IsByte}

take_nil : (k : ℕ) → take {A = ℕ} k [] ≡ []
take_nil zero = refl
take_nil (suc k) = refl

sum-take : (xs : List ℕ) (k : ℕ) → sum (take (suc k) xs) ≡ sum (take k xs) + get_or xs k 0
sum-take [] k = rw (take_nil k) (omega arith)
sum-take (x ∷ xs) zero = omega arith
sum-take (x ∷ xs) (suc k) = omega (arith, sum-take xs k)

module _ (slices : List (List ℕ)) (i : ℕ) where
  e_next :
      (u cum : ℕ)
      → cum ≡ sum (take u (get_or slices i []))
      → cum + get_or (get_or slices i []) u 0 ≡ sum (take (u + 1) (get_or slices i []))
  e_next u cum e =
      let next : suc u ≡ u + 1 = omega arith in
      ap (λ n. n + get_or (get_or slices i []) u 0) e
      ∙ sym (sum-take (get_or slices i []) u)
      ∙ ap (λ n. sum (take n (get_or slices i []))) next

  unit_strips-StripAt :
      (contents : List (List Content)) (u k cum : ℕ)
      → cum ≡ sum (take u (get_or slices i []))
      → k < length contents
      → StripAt cum
          (unit_strips slices i u contents)
          (sum (take (u + k) (get_or slices i [])))
          (strip_of slices i (u + k) (get_or contents k []))
  unfolding unit_strips
  unit_strips-StripAt [] u k cum e h = absurd (omega arith)
  unit_strips-StripAt (c ∷ cs) u zero cum e h =
      let same : u ≡ u + 0 = omega arith in
      inl
        (ap (λ n. strip_of slices i n c) same, e ∙ ap (λ n. sum (take n (get_or slices i []))) same)
  unit_strips-StripAt (c ∷ cs) u (suc k) cum e h =
      let same : u + 1 + k ≡ u + suc k = omega arith in
      inr (
        subst
          (λ n.
            StripAt (cum + get_or (get_or slices i []) u 0) (unit_strips slices i (u + 1) cs)
              (sum (take n (get_or slices i []))) (strip_of slices i n (get_or cs k [])))
          same
          (unit_strips-StripAt cs (u + 1) k (cum + get_or (get_or slices i []) u 0) (e_next u cum e)
            (omega arith)))

-- The segments go on from one position of the unit to another, and each byte of them, in the file where the
-- segment is, is the byte of the unit at its position.
abbrev pub AllRead : (ℕ → Bytes) → List Content → (ℕ → Bytes) → List SrcSeg → ℕ → ℕ → Type 0
AllRead files content outs [] pos stop = pos ≡ stop
AllRead files content outs (s ∷ ss) pos stop =
    ((k : ℕ) → k < s.len → IsByte files content (pos + k) (outs s.file (s.off + k)))
    × AllRead files content outs ss (pos + s.len) stop

module _ (files : ℕ → Bytes) (slices : List (List ℕ)) (data_offs : List ℕ)
    (contents : List (List Content)) (outs : ℕ → Bytes) (u rel : ℕ) (low : u < length contents)
    (agree : AreConsistent files (get_or contents u [])) where
  abbrev model : Strips
  model = record { chunk_slices = slices; data_offs = data_offs }

  abbrev written : ℕ → Bytes
  written = written_file files slices data_offs contents outs

  -- One byte of a segment.
  byte_lem :
      (s : SrcSeg) (k : ℕ)
      → InFile model u rel s
      → k < s.len
      → IsByte files (get_or contents u []) (rel + s.in_off + k) (written s.file (s.off + k))
  unfolding written_file
  byte_lem s k place less =
      let f = s.file in
      let base = sum (take u (get_or slices f [])) in
      let strip = strip_of slices f u (get_or contents u []) in
      let counted : get_or (cum_of 0 (counts_of slices u)) f 0 ≡ sum (take f (counts_of slices u)) =
        omega (
          arith,
          cum-take 0 (counts_of slices u) f (omega (arith, place.file, length-counts_of slices u)),
        ) in
      let blocks = get_or-counts_of slices u f place.file in
      let start = get_or-base_of slices u f place.file in
      let zero_first : 0 + u ≡ u = omega arith in
      let d = rel + s.in_off + k - strip.before * 4096 in
      let there : StripAt 0 (unit_strips slices f 0 contents) base strip =
        subst
          (λ n.
            StripAt 0 (unit_strips slices f 0 contents) (sum (take n (get_or slices f [])))
              (strip_of slices f n (get_or contents u [])))
          zero_first (unit_strips-StripAt slices f contents 0 u 0 refl low) in
      let first : strip.before * 4096 ≤ rel + s.in_off = omega (arith, counted, place.low) in
      let inside : d < strip.blocks * 4096 =
        omega (arith, counted, blocks, place.high, first, less) in
      let pos : strip.before * 4096 + d ≡ rel + s.in_off + k = omega (arith, first) in
      let where_it_is : get_or data_offs f 0 + (base * 4096 + d) ≡ s.off + k =
        omega (arith, counted, start, place.place, first) in
      let out =
        write_strips files (get_or data_offs f 0) (unit_strips slices f 0 contents) (outs f) in
      subst (λ q. IsByte files (get_or contents u []) (rel + s.in_off + k) (out q)) where_it_is
        (subst
          (λ x.
            IsByte files (get_or contents u []) x (out (get_or data_offs f 0 + (base * 4096 + d))))
          pos
          (write_strips-IsByte files (get_or data_offs f 0) (unit_strips slices f 0 contents)
            (outs f) base strip d there agree inside))

  SegsFrom-AllRead :
      (segs : List SrcSeg) (pos stop : ℕ)
      → SegsFrom model u rel segs pos stop
      → AllRead files (get_or contents u []) written segs pos stop
  SegsFrom-AllRead [] pos stop h = h
  SegsFrom-AllRead (s ∷ ss) pos stop (at, _, place, rest) = (
    λ k less.
        subst (λ q. IsByte files (get_or contents u []) (q + k) (written s.file (s.off + k))) at
          (byte_lem s k place less),
    SegsFrom-AllRead ss (pos + s.len) stop rest,
  )

-- A model whose units are whole blocks, of less than 2^64 bytes, is split without a ratio over any number of
-- files from one on without an error, if the share of a file is less than 2^31 blocks of each unit. After the strips are written, at any offsets and over whatever the files had,
-- an interval of a unit is found as segments of the files; and the bytes of the segments, one after another,
-- are those of the unit: what its sources have, and 0 where they have nothing, if sources of the unit that
-- overlap agree.
pub write_v3_chunk-read :
    (files : ℕ → Bytes) (n : ℕ) (sizes data_offs : List ℕ) (contents : List (List Content))
    (outs : ℕ → Bytes) (u rel len : ℕ)
    → 0 < n
    → All (λ size. (size % 4096 ≡ 0) × (size < 2 ^ 64) × (size / 4096 / n + 1 < 2 ^ 31)) sizes
    → length contents ≡ length sizes
    → u < length sizes
    → rel + len ≤ get_or sizes u 0
    → AreConsistent files (get_or contents u [])
    → (sps : List (List ℕ)) × (split_units n sizes ≡ some sps)
      × ((segs : List SrcSeg) × (strip_range_to_segs
              (record { chunk_slices = file_slices sps 0 n; data_offs = data_offs })
              u
              rel
              len
            ≡ some segs)
          × AllRead files
              (get_or contents u [])
              (written_file files (file_slices sps 0 n) data_offs contents outs)
              segs
              rel
              (rel + len))
write_v3_chunk-read files n sizes data_offs contents outs u rel len some_files aligned same low
      within agree =
    let (sps, split, (segs, found, from)) =
      split_units-read n sizes data_offs u rel len some_files aligned low within in
    (
      sps,
      split,
      (
        segs,
        found,
        SegsFrom-AllRead files (file_slices sps 0 n) data_offs contents outs u rel
            (omega (arith, same, low)) agree segs rel (rel + len) from,
      ),
    )
