-- ===== src/Convert/Memory.antt =====
-- A place of a file after copies and fills, src/convert/writer.cpp.
use stream_mo_e.Common.{
  ℕ, ◌+◌, ◌-◌, ◌≤◌, ◌<◌, ◌≡◌, refl, ◌∙◌, ◌⊎◌, inl, inr, true, false, ◌&&◌, List, [], ◌∷◌, ltb, leb,
  arith, Bool-cases,
}
use stream_mo_e.Convert.{CopyOp, Fill, Bytes, write_bytes, do_copy, do_fill}
use stream_mo_e.Convert.Segments.{OpsWrite}
use stream_mo_e.Convert.Fills.{IsFilled}
use stream_mo_e.Convert.Gaps.{IsUnwritten}

write_bytes_hit :
    (source : Bytes) (from at len : ℕ) (out : Bytes) (p : ℕ)
    → (leb at p && ltb p (at + len)) ≡ true
    → write_bytes source from at len out p ≡ source (from + (p - at))
unfolding write_bytes
write_bytes_hit source from at len out p hit = rw hit refl

write_bytes_miss :
    (source : Bytes) (from at len : ℕ) (out : Bytes) (p : ℕ)
    → (leb at p && ltb p (at + len)) ≡ false
    → write_bytes source from at len out p ≡ out p
unfolding write_bytes
write_bytes_miss source from at len out p miss = rw miss refl

module _ (files : ℕ → Bytes) (data_offset : ℕ) where
  -- A place has the byte of a copy that writes to it, or what it had where none does.
  pub do_copy_lem :
      (r : ℕ) (ops : List CopyOp) (out : Bytes)
      → ((f : ℕ) × (o : ℕ) × OpsWrite r ops f o
          × (do_copy files data_offset ops out (data_offset + r) ≡ files f o))
        ⊎ (IsUnwritten r ops
            × (do_copy files data_offset ops out (data_offset + r) ≡ out (data_offset + r)))
  unfolding do_copy
  do_copy_lem r [] out = inr (λ f o w. w, refl)
  do_copy_lem r (op ∷ ops) out =
      let at = data_offset + op.dst_rel in
      let now = write_bytes (files op.file) op.src_off at op.len out in
      elim (do_copy_lem r ops now) [
        | inl (f, o, w, e) ↦ inl (f, o, inr w, e)
        | inr (un, e) ↦
            elim (Bool-cases (leb at (data_offset + r) && ltb (data_offset + r) (at + op.len))) [
              | inl hit ↦
                  let lo : op.dst_rel ≤ r = ground (arith, hit) in
                  let hi : r < op.dst_rel + op.len = ground (arith, hit) in
                  inl (
                    op.file,
                    op.src_off + (data_offset + r - at),
                    inl (lo, hi, refl, omega (arith, lo)),
                    e
                        ∙ write_bytes_hit (files op.file) op.src_off at op.len out (data_offset + r)
                            hit,
                  )
              | inr miss ↦ inr (
                λ f o w. elim w [
                  | inl (lo, hi, _, _) ↦ absurd (ground (arith, miss, lo, hi))
                  | inr later ↦ un f o later
                ],
                e
                    ∙ write_bytes_miss (files op.file) op.src_off at op.len out (data_offset + r)
                        miss,
              )
            ]
      ]

module _ (data_offset : ℕ) where
  do_fill_zero :
      (r : ℕ) (fs : List Fill) (out : Bytes)
      → out (data_offset + r) ≡ 0
      → do_fill data_offset fs out (data_offset + r) ≡ 0
  unfolding do_fill
  do_fill_zero r [] out h = h
  do_fill_zero r (f ∷ fs) out h =
      let at = data_offset + f.at in
      let now = write_bytes (λ p. 0) 0 at f.len out in
      do_fill_zero r fs now
        (elim (Bool-cases (leb at (data_offset + r) && ltb (data_offset + r) (at + f.len))) [
          | inl hit ↦ write_bytes_hit (λ p. 0) 0 at f.len out (data_offset + r) hit
          | inr miss ↦ write_bytes_miss (λ p. 0) 0 at f.len out (data_offset + r) miss ∙ h
        ])

  pub do_fill_hit :
      (r : ℕ) (fs : List Fill) (out : Bytes)
      → IsFilled r fs
      → do_fill data_offset fs out (data_offset + r) ≡ 0
  unfolding do_fill
  do_fill_hit r [] out h = absurd h
  do_fill_hit r (f ∷ fs) out (inl (lo, hi)) =
      let at = data_offset + f.at in
      do_fill_zero r fs (write_bytes (λ p. 0) 0 at f.len out)
        (write_bytes_hit (λ p. 0) 0 at f.len out (data_offset + r) (ground (arith, lo, hi)))
  do_fill_hit r (f ∷ fs) out (inr h) =
      do_fill_hit r fs (write_bytes (λ p. 0) 0 (data_offset + f.at) f.len out) h

  pub do_fill_miss :
      (r : ℕ) (fs : List Fill) (out : Bytes)
      → (IsFilled r fs → ⊥)
      → do_fill data_offset fs out (data_offset + r) ≡ out (data_offset + r)
  unfolding do_fill
  do_fill_miss r [] out h = refl
  do_fill_miss r (f ∷ fs) out h =
      let at = data_offset + f.at in
      elim (Bool-cases (leb at (data_offset + r) && ltb (data_offset + r) (at + f.len))) [
        | inl hit ↦ absurd (h (inl (ground (arith, hit), ground (arith, hit))))
        | inr miss ↦
            do_fill_miss r fs (write_bytes (λ p. 0) 0 at f.len out) (λ m. h (inr m))
            ∙ write_bytes_miss (λ p. 0) 0 at f.len out (data_offset + r) miss
      ]
