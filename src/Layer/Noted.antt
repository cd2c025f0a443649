-- ===== src/Layer/Noted.antt =====
-- The loop over the readers of the results of a layer, src/backend/route_b_chain.cpp.
use stream_mo_e.Common.{
  ℕ, zero, suc, ◌<◌, ◌≡◌, ◌≢◌, refl, sym, ap, subst, ◌∙◌, inl, inr, Bool, true, false, ◌&&◌, ◌||◌,
  Option, none, some, List, [], ◌∷◌, if◌then◌else◌, ltb, ◌==◌, ==_iff, arith, length, get_or, set,
  replicate, length-replicate, length-set, get_or-set_self, get_or-set_ne, get_or-replicate,
  Bool-cases, Option-cases,
}
use stream_mo_e.Layer.{Tensor, prod_of, is_unset, note_use, note_uses, srcs_of, uses_down, last_use}

abbrev is_number : ℕ → Option ℕ → Bool
is_number p none = false
is_number p (some q) = q == p

-- One of the sources has node `p` as its producer.
pub reads : List Tensor → List ℕ → List (Option ℕ) → ℕ → Bool
reads g comp [] p = false
reads g comp (s ∷ ss) p = is_number p (prod_of g comp s) || reads g comp ss p

-- The largest of the nodes below `n` that come after node `p` and read its result.
unfoldable pub last_reader : List Tensor → List ℕ → ℕ → ℕ → Option ℕ
last_reader g comp p zero = none
last_reader g comp p (suc c) =
    let earlier = last_reader g comp p c in
    if ltb p c && reads g comp (srcs_of g comp c) p then some c else earlier

length-note_use :
    (c : ℕ) (q : Option ℕ) (lu : List (Option ℕ)) → length (note_use c q lu) ≡ length lu
unfolding note_use
length-note_use c none lu = refl
length-note_use c (some p) lu = elim (Bool-cases (ltb p c && is_unset (get_or lu p none))) [
  | inl new ↦ rw new (length-set lu p (some c))
  | inr old ↦ rw old refl
]

-- The entry of node `p` after a step, from that before it.
abbrev noted : ℕ → ℕ → Bool → Option ℕ → Option ℕ
noted c p now (some l) = some l
noted c p now none = if ltb p c && now then some c else none

noted_again :
    (c p : ℕ) (a b : Bool) (o : Option ℕ) → noted c p b (noted c p a o) ≡ noted c p (a || b) o
noted_again c p a b (some l) = refl
noted_again c p a b none = ground arith

noted_other : (c p : ℕ) (o : Option ℕ) → noted c p false o ≡ o
noted_other c p none = ground arith
noted_other c p (some l) = refl

noted_new : (c p : ℕ) (o : Option ℕ) → (ltb p c && is_unset o) ≡ true → noted c p true o ≡ some c
noted_new c p none h = ground arith
noted_new c p (some l) h = ground arith

noted_old : (c p : ℕ) (o : Option ℕ) → (ltb p c && is_unset o) ≡ false → noted c p true o ≡ o
noted_old c p none h = ground arith
noted_old c p (some l) h = refl

written :
    (c p q : ℕ) (lu : List (Option ℕ))
    → p < length lu
    → (ltb q c && is_unset (get_or lu q none)) ≡ true
    → get_or (set lu q (some c)) p none ≡ noted c p (q == p) (get_or lu p none)
written c p q lu low new = elim (Bool-cases (q == p)) [
  | inl here ↦
      let same : q ≡ p = (==_iff q p).0 here in
      let at : get_or (set lu q (some c)) p none ≡ some c =
        subst (λ i. get_or (set lu q (some c)) i none ≡ some c) same
          (get_or-set_self lu q (some c) none (omega (arith, same, low))) in
      let fits : (ltb p c && is_unset (get_or lu p none)) ≡ true =
        subst (λ i. (ltb i c && is_unset (get_or lu i none)) ≡ true) same new in
      rw here (at ∙ sym (noted_new c p (get_or lu p none) fits))
  | inr other ↦
      let apart : q ≢ p = λ e. ground (arith, other, e) in
      rw other (get_or-set_ne lu q p (some c) none apart ∙ sym (noted_other c p (get_or lu p none)))
]

left_as_it_was :
    (c p q : ℕ) (lu : List (Option ℕ))
    → (ltb q c && is_unset (get_or lu q none)) ≡ false
    → get_or lu p none ≡ noted c p (q == p) (get_or lu p none)
left_as_it_was c p q lu old = elim (Bool-cases (q == p)) [
  | inr other ↦ rw other (sym (noted_other c p (get_or lu p none)))
  | inl here ↦
      let stays : (ltb p c && is_unset (get_or lu p none)) ≡ false =
        subst (λ i. (ltb i c && is_unset (get_or lu i none)) ≡ false) ((==_iff q p).0 here) old in
      rw here (sym (noted_old c p (get_or lu p none) stays))
]

get_or-note_use :
    (c p : ℕ) (q : Option ℕ) (lu : List (Option ℕ))
    → p < length lu
    → get_or (note_use c q lu) p none ≡ noted c p (is_number p q) (get_or lu p none)
unfolding note_use
get_or-note_use c p none lu low = sym (noted_other c p (get_or lu p none))
get_or-note_use c p (some q) lu low = elim (Bool-cases (ltb q c && is_unset (get_or lu q none))) [
  | inl new ↦ rw new (written c p q lu low new)
  | inr old ↦ rw old (left_as_it_was c p q lu old)
]

pub length-note_uses :
    (g : List Tensor) (comp : List ℕ) (c : ℕ) (ss lu : List (Option ℕ))
    → length (note_uses g comp c ss lu) ≡ length lu
unfolding note_uses
length-note_uses g comp c [] lu = refl
length-note_uses g comp c (s ∷ ss) lu =
    length-note_uses g comp c ss (note_use c (prod_of g comp s) lu)
    ∙ length-note_use c (prod_of g comp s) lu

get_or-note_uses :
    (g : List Tensor) (comp : List ℕ) (c p : ℕ) (ss lu : List (Option ℕ))
    → p < length lu
    → get_or (note_uses g comp c ss lu) p none ≡ noted c p (reads g comp ss p) (get_or lu p none)
unfolding note_uses reads
get_or-note_uses g comp c p [] lu low = sym (noted_other c p (get_or lu p none))
get_or-note_uses g comp c p (s ∷ ss) lu low =
    let q = prod_of g comp s in
    get_or-note_uses g comp c p ss (note_use c q lu) (omega (arith, low, length-note_use c q lu))
    ∙ ap (noted c p (reads g comp ss p)) (get_or-note_use c p q lu low)
    ∙ noted_again c p (is_number p q) (reads g comp ss p) (get_or lu p none)

abbrev first_of : Option ℕ → Option ℕ → Option ℕ
first_of none o = o
first_of (some l) o = some l

first_noted :
    (c p : ℕ) (now : Bool) (o earlier : Option ℕ)
    → first_of (noted c p now o) earlier ≡ first_of o (if ltb p c && now then some c else earlier)
first_noted c p now (some l) earlier = refl
first_noted c p now none earlier = ground arith

get_or-uses_down :
    (g : List Tensor) (comp : List ℕ) (p n : ℕ) (lu : List (Option ℕ))
    → p < length lu
    → get_or (uses_down g comp n lu) p none ≡ first_of (get_or lu p none) (last_reader g comp p n)
unfolding uses_down last_reader
get_or-uses_down g comp p zero lu low = elim (Option-cases (get_or lu p none)) [
  | inl unset ↦ rw unset refl
  | inr (l, was) ↦ rw was refl
]
get_or-uses_down g comp p (suc c) lu low =
    let ss = srcs_of g comp c in
    get_or-uses_down g comp p c (note_uses g comp c ss lu)
      (omega (arith, low, length-note_uses g comp c ss lu))
    ∙ ap (λ o. first_of o (last_reader g comp p c)) (get_or-note_uses g comp c p ss lu low)
    ∙ first_noted c p (reads g comp ss p) (get_or lu p none) (last_reader g comp p c)

pub last_use-last_reader :
    (g : List Tensor) (comp : List ℕ) (p : ℕ)
    → p < length comp
    → get_or (last_use g comp) p none ≡ last_reader g comp p (length comp)
unfolding last_use
last_use-last_reader g comp p low =
    let nothing : Option ℕ = none in
    let long : length (replicate (length comp) nothing) ≡ length comp =
      length-replicate (length comp) nothing in
    get_or-uses_down g comp p (length comp) (replicate (length comp) nothing) (omega (arith, long))
    ∙ ap (λ o. first_of o (last_reader g comp p (length comp)))
        (get_or-replicate (length comp) p nothing nothing low)
