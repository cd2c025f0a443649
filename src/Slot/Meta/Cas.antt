-- ===== src/Slot/Meta/Cas.antt =====
-- The compare-and-swap loop of the methods of `slot_meta`, run while other threads write the word.
use stream_mo_e.Common.{
  ℕ, ◌≡◌, refl, ◌⊎◌, inl, inr, Bool, true, false, not, ◌&&◌, List, [], ◌∷◌, ◌++◌, arith, ◌==◌,
  if◌then◌else◌, Bool-cases, ==_refl,
}
use stream_mo_e.Slot.Meta.{Round, done, swap}

-- What `compare_exchange_weak` meets: the word that memory holds then, and whether it fails though
-- the words are equal, which the weak form may.
pub record Meeting : Type 0 where
  pub memory : ℕ
  pub spurious : Bool

-- How far a call has come: it returned `a` having seen a word and written nothing, it returned `a`
-- having replaced a word by another in one step, or it is still in its loop.
pub data Outcome (A : Type 0) : Type 0 where
  returned : (seen : ℕ) → A → Outcome A
  replaced : (old new : ℕ) → A → Outcome A
  looping : ℕ → Outcome A

-- `w` is the word loaded last; the list is what the swaps meet, in order.
unfoldable pub cas_loop : {A : Type 0} → (ℕ → Round A) → ℕ → List Meeting → Outcome A
cas_loop f w [] = looping w
cas_loop f w (m ∷ ms) = elim (f w) [
  | done a ↦ returned w a
  | swap nw a ↦
      let again = cas_loop f m.memory ms in
      if (m.memory == w) && not m.spurious then replaced w nw a else again
]

-- The words that a call has loaded: the first, and after each swap that failed what that swap found.
abbrev pub Loads : ℕ → List Meeting → ℕ → Type 0
Loads w [] x = x ≡ w
Loads w (m ∷ ms) x = (x ≡ w) ⊎ ((((m.memory == w) && not m.spurious) ≡ false) × Loads m.memory ms x)

-- A swap that expects `old` wins: it is tried right after `old` was loaded, memory holds `old` then and
-- the swap does not fail, and every swap before it met another word or failed though the words were equal.
abbrev pub Wins : ℕ → List Meeting → ℕ → Type 0
Wins w [] old = ⊥
Wins w (m ∷ ms) old =
    ((w ≡ old) × (m.memory ≡ old) × (m.spurious ≡ false))
    ⊎ ((((m.memory == w) && not m.spurious) ≡ false) × Wins m.memory ms old)

-- What an outcome says of the round that ended the loop.
abbrev pub Explains : {A : Type 0} → (ℕ → Round A) → ℕ → List Meeting → Outcome A → Type 0
Explains f w ms (returned seen a) = Loads w ms seen × (f seen ≡ done a)
Explains f w ms (replaced old new a) = Wins w ms old × (f old ≡ swap new a)
Explains f w ms (looping x) = Loads w ms x

Round-cases :
    {A : Type 0} (r : Round A) → ((a : A) × (r ≡ done a)) ⊎ ((nw : ℕ) × (a : A) × (r ≡ swap nw a))
Round-cases (done a) = inl (a, refl)
Round-cases (swap nw a) = inr (nw, a, refl)

later :
    {A : Type 0} (f : ℕ → Round A) (w : ℕ) (m : Meeting) (ms : List Meeting) (o : Outcome A)
    → ((m.memory == w) && not m.spurious) ≡ false
    → Explains f m.memory ms o
    → Explains f w (m ∷ ms) o
later f w m ms (returned seen a) lost h = (inr (lost, h.0), h.1)
later f w m ms (replaced old new a) lost h = (inr (lost, h.0), h.1)
later f w m ms (looping x) lost h = inr (lost, h)

won-eq :
    (w : ℕ) (m : Meeting)
    → ((m.memory == w) && not m.spurious) ≡ true
    → (m.memory ≡ w) × (m.spurious ≡ false)
won-eq w m h = elim (Bool-cases m.spurious) [
  | inl failed ↦ absurd (ground arith)
  | inr passed ↦ (ground arith, passed)
]

-- Whatever the other threads write, a call that returns has acted at one moment: if it wrote, it did so
-- at the first swap that met the word loaded just before it and did not fail, and the new word and the result
-- are computed from that word, which memory held then; if it did not write, its result was computed from
-- a word that it had loaded, after swaps that all failed.
pub cas_loop_atomic :
    {A : Type 0} (f : ℕ → Round A) (w : ℕ) (ms : List Meeting) → Explains f w ms (cas_loop f w ms)
unfolding cas_loop
cas_loop_atomic f w [] = refl
cas_loop_atomic f w (m ∷ ms) = elim (Round-cases (f w)) [
  | inl (a, e) ↦ rw (e, cas_loop) (inl refl, e)
  | inr (nw, a, e) ↦
      rw (e, cas_loop)
        (elim (Bool-cases ((m.memory == w) && not m.spurious)) [
          | inl won ↦ let (met, passed) = won-eq w m won in rw won (inl (refl, met, passed), e)
          | inr lost ↦ rw lost (later f w m ms _ lost (cas_loop_atomic f m.memory ms))
        ])
]

abbrev pub IsReturned : {A : Type 0} → Outcome A → Type 0
IsReturned (returned seen a) = Unit {0}
IsReturned (replaced old new a) = Unit {0}
IsReturned (looping w) = ⊥

quiet-IsReturned :
    {A : Type 0} (f : ℕ → Round A) (w : ℕ) (ms : List Meeting)
    → IsReturned (cas_loop f w (record { memory = w; spurious = false } ∷ ms))
unfolding cas_loop
quiet-IsReturned f w ms = elim (Round-cases (f w)) [
  | inl (a, e) ↦ rw (e, cas_loop) tt
  | inr (nw, a, e) ↦ rw (e, cas_loop, ==_refl w) tt
]

-- A call does not loop for ever by itself: once two swaps in a row meet the same word, and the
-- second does not fail spuriously, it has returned, whatever came before.
pub cas_loop_returns :
    {A : Type 0} (f : ℕ → Round A) (w x : ℕ) (s : Bool) (before after : List Meeting)
    → IsReturned (
        cas_loop f w (
          before
          ++ (record { memory = x; spurious = s }
              ∷ record { memory = x; spurious = false }
              ∷ after)))
unfolding cas_loop
cas_loop_returns f w x s [] after = elim (Round-cases (f w)) [
  | inl (a, e) ↦ rw (e, cas_loop) tt
  | inr (nw, a, e) ↦
      rw (e, cas_loop)
        (elim (Bool-cases ((x == w) && not s)) [
          | inl won ↦ rw won tt
          | inr lost ↦ rw lost (quiet-IsReturned f x after)
        ])
]
cas_loop_returns f w x s (m ∷ before) after = elim (Round-cases (f w)) [
  | inl (a, e) ↦ rw (e, cas_loop) tt
  | inr (nw, a, e) ↦
      rw (e, cas_loop)
        (elim (Bool-cases ((m.memory == w) && not m.spurious)) [
          | inl won ↦ rw won tt
          | inr lost ↦ rw lost (cas_loop_returns f m.memory x s before after)
        ])
]
