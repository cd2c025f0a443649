-- ===== src/Strips/Files.antt =====
-- The file that has a block of a unit, src/loader/model_builder.cpp.
use stream_mo_e.Common.{
  ℕ, zero, suc, ◌+◌, ◌≤◌, ◌<◌, ◌≡◌, refl, ap, inl, inr, List, [], ◌∷◌, leb, arith, length, get_or,
  take, Bool-cases,
}
use stream_mo_e.Strips.{sum, counts_of, base_of, cum_of, find_file}

pub length-counts_of :
    (slices : List (List ℕ)) (unit : ℕ) → length (counts_of slices unit) ≡ length slices
unfolding counts_of
length-counts_of [] unit = refl
length-counts_of (s ∷ ss) unit = ap suc (length-counts_of ss unit)

pub cum_first : (c : ℕ) (xs : List ℕ) → 0 < length xs → get_or (cum_of c xs) 0 0 ≡ c
unfolding cum_of
cum_first c [] h = absurd (omega arith)
cum_first c (x ∷ xs) h = refl

cum_next :
    (c : ℕ) (xs : List ℕ) (i : ℕ)
    → suc i < length xs
    → get_or (cum_of c xs) (suc i) 0 ≡ get_or (cum_of c xs) i 0 + get_or xs i 0
unfolding cum_of
cum_next c [] i h = absurd (omega arith)
cum_next c (x ∷ xs) zero h = cum_first (c + x) xs (omega arith)
cum_next c (x ∷ xs) (suc i) h = cum_next (c + x) xs i (omega arith)

cum_last :
    (c : ℕ) (xs : List ℕ) (n : ℕ)
    → length xs ≡ suc n
    → get_or (cum_of c xs) n 0 + get_or xs n 0 ≡ c + sum xs
unfolding cum_of
cum_last c [] n h = absurd (omega arith)
cum_last c (x ∷ []) zero h = omega arith
cum_last c (x ∷ y ∷ ys) zero h = absurd (omega arith)
cum_last c (x ∷ xs) (suc n) h = omega (arith, cum_last (c + x) xs n (omega arith))

pub cum_le :
    (c : ℕ) (xs : List ℕ) (i : ℕ)
    → i < length xs
    → get_or (cum_of c xs) i 0 + get_or xs i 0 ≤ c + sum xs
unfolding cum_of
cum_le c [] i h = absurd (omega arith)
cum_le c (x ∷ xs) zero h = omega arith
cum_le c (x ∷ xs) (suc i) h = omega (arith, cum_le (c + x) xs i (omega arith))

-- The file that is found has the block.
pub record Has (counts : List ℕ) (cur f : ℕ) : Type 0 where
  pub file : f < length counts
  pub low : get_or (cum_of 0 counts) f 0 ≤ cur
  pub high : cur < get_or (cum_of 0 counts) f 0 + get_or counts f 0

pub find_file-Has :
    (left : ℕ) (counts : List ℕ) (cur fi : ℕ)
    → fi + left + 1 ≡ length counts
    → get_or (cum_of 0 counts) fi 0 ≤ cur
    → cur < sum counts
    → Has counts cur (find_file left (cum_of 0 counts) counts cur fi)
unfolding find_file
find_file-Has zero counts cur fi last low high = record {
  file = omega arith;
  low = low;
  high = omega (arith, cum_last 0 counts fi (omega arith));
}
find_file-Has (suc left) counts cur fi last low high =
    elim (Bool-cases (leb (get_or (cum_of 0 counts) fi 0 + get_or counts fi 0) cur)) [
      | inl past ↦ rw past (
          find_file-Has left counts cur (fi + 1) (omega arith)
            (ground (arith, past, cum_next 0 counts fi (omega arith), plus_one fi)) high)
      | inr here ↦ rw here (record { file = omega arith; low = low; high = ground (arith, here) })
    ]
  where
    plus_one : (i : ℕ) → get_or (cum_of 0 counts) (i + 1) 0 ≡ get_or (cum_of 0 counts) (suc i) 0
    plus_one i = ap (λ z. get_or (cum_of 0 counts) z 0) (omega arith)

pub cum-take :
    (c : ℕ) (xs : List ℕ) (i : ℕ) → i < length xs → get_or (cum_of c xs) i 0 ≡ c + sum (take i xs)
unfolding cum_of
cum-take c [] i h = absurd (omega arith)
cum-take c (x ∷ xs) zero h = omega arith
cum-take c (x ∷ xs) (suc i) h = omega (arith, cum-take (c + x) xs i (omega arith))

pub get_or-base_of :
    (slices : List (List ℕ)) (unit f : ℕ)
    → f < length slices
    → get_or (base_of slices unit) f 0 ≡ sum (take unit (get_or slices f []))
unfolding base_of
get_or-base_of [] unit f h = absurd (omega arith)
get_or-base_of (s ∷ ss) unit zero h = refl
get_or-base_of (s ∷ ss) unit (suc f) h = get_or-base_of ss unit f (omega arith)

pub get_or-counts_of :
    (slices : List (List ℕ)) (unit f : ℕ)
    → f < length slices
    → get_or (counts_of slices unit) f 0 ≡ get_or (get_or slices f []) unit 0
unfolding counts_of
get_or-counts_of [] unit f h = absurd (omega arith)
get_or-counts_of (s ∷ ss) unit zero h = refl
get_or-counts_of (s ∷ ss) unit (suc f) h = get_or-counts_of ss unit f (omega arith)
