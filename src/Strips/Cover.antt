-- ===== src/Strips/Cover.antt =====
-- The segments of an interval of a unit, src/loader/model_builder.cpp.
use stream_mo_e.Common.{
  ℕ, zero, suc, ◌+◌, ◌-◌, ◌*◌, ◌/◌, ◌^◌, ◌≤◌, ◌<◌, min, max, ◌≡◌, refl, ap, ◌∙◌, subst, false, some,
  inl, inr, List, [], ◌∷◌, ◌++◌, if◌then◌else◌, ltb, ◌==◌, ltb→lt, ltb_false→le, arith, length,
  get_or, Bool-cases, append_nil, append_assoc, dec_lt,
}
use stream_mo_e.Strips.{
  Strips, SrcSeg, sub64, sum, counts_of, base_of, cum_of, find_file, strip_seg, strip_loop,
  strip_range_to_segs,
}
use stream_mo_e.Strips.Files.{Has, find_file-Has, length-counts_of, cum_first, cum_le}

module _ (m : Strips) (unit rel : ℕ) where
  abbrev counts : List ℕ
  counts = counts_of m.chunk_slices unit

  abbrev cum : List ℕ
  cum = cum_of 0 counts

  -- A segment lies in the blocks of the unit that its file has, and its bytes are those that the strip of
  -- the file has for them.
  pub record InFile (s : SrcSeg) : Type 0 where
    pub file : s.file < length m.chunk_slices
    pub low : get_or cum s.file 0 * 4096 ≤ rel + s.in_off
    pub high : rel + s.in_off + s.len ≤ (get_or cum s.file 0 + get_or counts s.file 0) * 4096
    pub place :
        s.off + get_or cum s.file 0 * 4096
        ≡ get_or m.data_offs s.file 0
          + get_or (base_of m.chunk_slices unit) s.file 0 * 4096
          + (rel + s.in_off)

  -- The segments go from one position of the unit to another, each after the one before it.
  abbrev pub SegsFrom : List SrcSeg → ℕ → ℕ → Type 0
  SegsFrom [] pos stop = pos ≡ stop
  SegsFrom (s ∷ ss) pos stop =
      (rel + s.in_off ≡ pos) × (0 < s.len) × InFile s × SegsFrom ss (pos + s.len) stop

  -- Where the segments stand before block `cur`.
  abbrev At : ℕ → ℕ → ℕ → ℕ → Type 0
  At len end cur pos = (cur < end → pos ≡ max rel (cur * 4096)) × (cur ≡ end → pos ≡ rel + len)

  module _ (len : ℕ) where
    abbrev end : ℕ
    end = (rel + len + 4096 - 1) / 4096

    -- One segment goes on to the position of the next block that is looked at.
    strip_seg-From :
        (cur f avail pos stop : ℕ) (out : List SrcSeg)
        → Has counts cur f
        → f < length m.chunk_slices
        → 0 < avail
        → cur + avail ≤ get_or cum f 0 + get_or counts f 0
        → cur + avail ≤ end
        → rel < (cur + 1) * 4096
        → At len end cur pos
        → (next : ℕ) → At len end (cur + avail) next
        → SegsFrom out next stop
        → SegsFrom
            (strip_seg m (base_of m.chunk_slices unit) rel len cur f (cur - get_or cum f 0) avail
              ++ out)
            pos
            stop
    unfolding strip_seg
    strip_seg-From cur f avail pos stop out has file some_block room within near at next after
          rest =
        let goal : next ≡ min (rel + len) (max rel ((cur + avail) * 4096)) =
          elim (dec_lt (cur + avail) end) [
            | yes further ↦ omega (arith, after.0 further)
            | no last ↦ omega (arith, after.1 (omega arith))
          ] in
        let here : pos ≡ max rel (cur * 4096) = at.0 (omega arith) in
        elim (Bool-cases (ltb (max rel (cur * 4096)) (min (rel + len) ((cur + avail) * 4096)))) [
          | inl some_bytes ↦
              let less =
                ltb→lt (max rel (cur * 4096)) (min (rel + len) ((cur + avail) * 4096)) some_bytes in
              rw some_bytes (
                omega arith,
                omega arith,
                record {
                  file = file;
                  low = omega (arith, has.low);
                  high = omega (arith, room);
                  place = omega (arith, has.low);
                },
                subst (λ z. SegsFrom out z stop) (omega arith) rest,
              )
          | inr no_bytes ↦
              let past =
                ltb_false→le (max rel (cur * 4096)) (min (rel + len) ((cur + avail) * 4096))
                  no_bytes in
              rw no_bytes (subst (λ z. SegsFrom out z stop) (omega arith) rest)
        ]

    -- With a unit of fuel for each block that is left, the loop returns the segments.
    strip_loop-From :
        (fuel cur pos : ℕ) (segs : List SrcSeg)
        → 0 < length m.chunk_slices
        → sum counts < 2 ^ 52
        → end ≤ sum counts
        → end ≤ cur + fuel
        → cur ≤ end
        → rel < (cur + 1) * 4096
        → At len end cur pos
        → (out : List SrcSeg) × (strip_loop fuel m counts
              (base_of m.chunk_slices unit)
              cum
              rel
              len
              end
              cur
              segs
            ≡ some (segs ++ out))
          × SegsFrom out pos (rel + len)
    unfolding strip_loop
    strip_loop-From zero cur pos segs files small covered enough below near at =
        let done : ltb cur end ≡ false = ground (arith, enough) in
        ([], rw (done, append_nil segs) refl, at.1 (omega arith))
    strip_loop-From (suc fuel) cur pos segs files small covered enough below near at =
        elim (Bool-cases (ltb cur end)) [
          | inr done ↦ ([], rw (done, append_nil segs) refl, at.1 (ground (arith, done, below)))
          | inl more ↦
              let f = find_file (length m.chunk_slices - 1) cum counts cur 0 in
              let left = ltb→lt cur end more in
              let count = length-counts_of m.chunk_slices unit in
              let has =
                find_file-Has (length m.chunk_slices - 1) counts cur 0 (omega (arith, count))
                  (omega (arith, cum_first 0 counts (omega (arith, count)))) (omega arith) in
              let top = cum_le 0 counts f has.file in
              let local : sub64 cur (get_or cum f 0) ≡ cur - get_or cum f 0 =
                omega (arith, has.low) in
              let room : sub64 (get_or counts f 0) (cur - get_or cum f 0)
                  ≡ get_or counts f 0 - (cur - get_or cum f 0) =
                omega (arith, has.low, has.high, top) in
              let avail = min (get_or counts f 0 - (cur - get_or cum f 0)) (end - cur) in
              let forward : 0 < avail = omega (arith, has.low, has.high) in
              let moves : (avail == 0) ≡ false = ground (arith, forward) in
              let seg =
                strip_seg m (base_of m.chunk_slices unit) rel len cur f (cur - get_or cum f 0)
                  avail in
              let next =
                if ltb (cur + avail) end then max rel ((cur + avail) * 4096) else rel + len in
              let after : At len end (cur + avail) next = (ground arith, ground arith) in
              let (out, returns, onward) =
                strip_loop-From fuel (cur + avail) next (segs ++ seg) files small covered
                  (omega (arith, enough, forward)) (omega arith) (omega arith) after in
              rw (more, local, room, moves)
                (
                  seg ++ out,
                  returns ∙ ap some (append_assoc segs seg out),
                  strip_seg-From cur f avail pos (rel + len) out has
                      (omega (arith, has.file, count)) forward (omega (arith, has.low, has.high))
                      (omega arith) near at next after onward,
                )
        ]

-- An interval of a unit that the strips cover, with less than 2^52 blocks in the unit, is returned as
-- segments that go from its start to its end without a gap and without an overlap; each lies in the
-- blocks of one file, at the place where the strip of that file has them.
pub strip_range_to_segs-From :
    (m : Strips) (unit rel len : ℕ)
    → 0 < length m.chunk_slices
    → sum (counts_of m.chunk_slices unit) < 2 ^ 52
    → rel + len ≤ sum (counts_of m.chunk_slices unit) * 4096
    → (segs : List SrcSeg) × (strip_range_to_segs m unit rel len ≡ some segs)
      × SegsFrom m unit rel segs rel (rel + len)
unfolding strip_range_to_segs
strip_range_to_segs-From m unit rel len files small covered =
    strip_loop-From m unit rel len ((rel + len + 4096 - 1) / 4096 - rel / 4096) (rel / 4096) rel []
      files small (omega arith) (omega arith) (omega arith) (omega arith)
      ((λ further. omega arith), (λ last. omega arith))
