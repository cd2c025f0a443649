-- ===== src/Convert/Written.antt =====
-- What stands in a file after `write_v3_chunk` of src/convert/writer.cpp.
use stream_mo_e.Common.{
  ℕ, ◌+◌, ◌-◌, ◌*◌, ◌<◌, ◌≡◌, refl, sym, subst, ◌∙◌, inl, inr, false, List, ◌==◌, arith,
}
use stream_mo_e.Convert.{
  Content, content_to_ops, strip_ops, UnitStrip, file_ops, file_fills, Bytes, do_copy, write_strips,
}
use stream_mo_e.Convert.Segments.{Supplies, OpsWrite}
use stream_mo_e.Convert.Ops.{content_to_ops-Supply, content_to_ops-Write}
use stream_mo_e.Convert.Fills.{IsFilled}
use stream_mo_e.Convert.Gaps.{IsUnwritten, strip_fills_sound, strip_fills_complete}
use stream_mo_e.Convert.Memory.{do_copy_lem, do_fill_hit, do_fill_miss}
use stream_mo_e.Convert.Places.{
  StripAt, ops_of, file_ops-Write, file_ops-only, file_fills-IsFilled, file_fills-only,
}

-- Where two sources have a byte for a position, it is the same byte.
abbrev pub AreConsistent : (ℕ → Bytes) → List Content → Type 0
AreConsistent files content =
    (x f o f' o' : ℕ) → Supplies content x f o → Supplies content x f' o' → files f o ≡ files f' o'

-- The byte of a unit at a position: that of the source that has it, and 0 where none has it.
abbrev pub IsByte : (ℕ → Bytes) → List Content → ℕ → ℕ → Type 0
IsByte files content x byte =
    ((f o : ℕ) → Supplies content x f o → byte ≡ files f o)
    × (((f o : ℕ) → Supplies content x f o → ⊥) → byte ≡ 0)

-- After the copies and the fills of a file, whatever it had before, each place of the strip of a unit has
-- the byte of the unit at the position that the place is for, if sources that overlap agree.
pub write_strips-IsByte :
    (files : ℕ → Bytes) (data_offset : ℕ) (us : List UnitStrip) (out : Bytes) (b : ℕ)
    (u : UnitStrip) (d : ℕ)
    → StripAt 0 us b u
    → AreConsistent files u.content
    → d < u.blocks * 4096
    → IsByte files u.content
        (u.before * 4096 + d)
        (write_strips files data_offset us out (data_offset + (b * 4096 + d)))
unfolding write_strips strip_ops
write_strips-IsByte files data_offset us out b u d there agree low =
    let r = b * 4096 + d in
    let copied = do_copy files data_offset (file_ops 0 us) out in
    let start = u.before * 4096 in
    let len = u.blocks * 4096 in
    let base = b * 4096 in
    let some_bytes : (len == 0) ≡ false = ground (arith, low) in
    let open_ops : strip_ops u.content start len base ≡ content_to_ops u.content start len base =
      rw some_bytes refl in
    let at : start + (r - base) ≡ start + d = omega arith in
    let supplied = λ (f o : ℕ) (w : OpsWrite r (ops_of u b) f o).
      subst (λ k. Supplies u.content k f o) at
        (content_to_ops-Supply start len base u.content r f o
          (subst (λ l. OpsWrite r l f o) open_ops w)) in
    let written = λ (f o : ℕ) (s : Supplies u.content (start + d) f o).
      subst (λ l. OpsWrite r l f o) (sym open_ops)
        (content_to_ops-Write start len base u.content r f o (omega arith) (omega arith)
          (subst (λ k. Supplies u.content k f o) (sym at) s)) in
    elim (do_copy_lem files data_offset r (file_ops 0 us) out) [
      | inl (f, o, w, e) ↦
          let mine = file_ops-only 0 us b u r f o there (omega arith) (omega arith) w in
          let not_filled = λ (m : IsFilled r (file_fills 0 us)).
            let (_, _, un) =
              strip_fills_sound u.content start len base r
                (file_fills-only 0 us b u r there (omega arith) (omega arith) m) in
            un f o mine in
          let final = do_fill_miss data_offset r (file_fills 0 us) copied not_filled ∙ e in
          (
            λ f' o' s. final ∙ agree (start + d) f o f' o' (supplied f o mine) s,
            λ nothing. absurd (nothing f o (supplied f o mine)),
          )
      | inr (un, e) ↦
          let clear : IsUnwritten r (ops_of u b) =
            λ f o w. un f o (file_ops-Write 0 us b u r f o there w) in
          let filled =
            file_fills-IsFilled 0 us b u r there
              (strip_fills_complete u.content start len base r (omega arith) (omega arith) clear) in
          (
            λ f o s. absurd (clear f o (written f o s)),
            λ nothing. do_fill_hit data_offset r (file_fills 0 us) copied filled,
          )
    ]
