-- ===== src/Directory/Index.antt =====
-- The flat index of a cell: in range, and one index for one cell.
use stream_mo_e.Common.{ℕ, ◌+◌, ◌*◌, ◌/◌, ◌<◌, ◌≡◌, ap, length, arith}
use native.Mathlib.Nat.{mul-add-div_right, div-eq_of_lt}
use stream_mo_e.Directory.{Directory, expert_idx, idx}

-- A cell that the directory has.
pub record InRange (d : Directory) (layer expert pool : ℕ) : Type 0 where
  pub layer_lt : layer < d.n_layers
  pub expert_lt : expert < d.n_experts
  pub pool_lt : pool < d.n_pools

-- The arrays have the lengths that the constructor gives them.
pub record IsValid (d : Directory) : Type 0 where
  pub states_len : length d.states ≡ d.n_layers * d.n_experts * d.n_pools
  pub slots_len : length d.slots ≡ d.n_layers * d.n_experts * d.n_pools
  pub versions_len : length d.versions ≡ d.n_layers * d.n_experts
  pub last_useds_len : length d.last_useds ≡ d.n_layers * d.n_experts

row_major_lt : (r c w h : ℕ) → r < h → c < w → r * w + c < h * w
row_major_lt r c w h p q = grind arith

row_of : (r c w : ℕ) → c < w → (r * w + c) / w ≡ r
row_of r c w h =
    omega (arith, mul-add-div_right {m = w} (omega arith) r c, div-eq_of_lt {n = c} {m = w} h)

row_major_inj : (r c r' c' w : ℕ) → c < w → c' < w → r * w + c ≡ r' * w + c' → (r ≡ r') × (c ≡ c')
row_major_inj r c r' c' w p q e =
    let same : r ≡ r' = omega (arith, row_of r c w p, row_of r' c' w q, ap (λ n. n / w) e) in
    (same, omega (arith, e, ap (λ n. n * w) same))

module _ (d : Directory) (l e p : ℕ) (h : InRange d l e p) where
  pub expert_idx-lt : expert_idx d l e < d.n_layers * d.n_experts
  expert_idx-lt = row_major_lt l e d.n_experts d.n_layers h.layer_lt h.expert_lt

  pub idx-lt : idx d l e p < d.n_layers * d.n_experts * d.n_pools
  idx-lt =
      row_major_lt (expert_idx d l e) p d.n_pools (d.n_layers * d.n_experts) expert_idx-lt h.pool_lt

  module _ (l' e' p' : ℕ) (h' : InRange d l' e' p') where
    pub expert_idx_inj : expert_idx d l e ≡ expert_idx d l' e' → (l ≡ l') × (e ≡ e')
    expert_idx_inj = row_major_inj l e l' e' d.n_experts h.expert_lt h'.expert_lt

    pub idx_inj : idx d l e p ≡ idx d l' e' p' → (l ≡ l') × (e ≡ e') × (p ≡ p')
    idx_inj same =
        let (row, col) =
          row_major_inj (expert_idx d l e) p (expert_idx d l' e') p' d.n_pools h.pool_lt h'.pool_lt
            same in
        let (a, b) = expert_idx_inj row in (a, b, col)
