-- ===== src/Layer/Producer.antt =====
-- The producer behind a chain of views, src/backend/route_b_chain.cpp.
use stream_mo_e.Common.{
  ℕ, zero, suc, ◌<◌, ◌≡◌, refl, sym, ap, subst, ◌∙◌, inl, inr, true, false, none, some, List, arith,
  length, get_or, Bool-cases, Option-cases,
}
use stream_mo_e.Layer.{Tensor, tensor_at, is_view_op, unwrap}

-- The first source of a view has a smaller number.
abbrev pub ViewsAreLater : List Tensor → Type 0
ViewsAreLater g = (t s : ℕ) → get_or (tensor_at g t).src 0 none ≡ some s → s < t

unwrap_null : (fuel : ℕ) (g : List Tensor) → unwrap fuel g none ≡ none
unfolding unwrap
unwrap_null zero g = refl
unwrap_null (suc fuel) g = refl

unwrap-view :
    (fuel : ℕ) (g : List Tensor) (p : ℕ)
    → is_view_op (tensor_at g p).op ≡ true
    → unwrap (suc fuel) g (some p) ≡ unwrap fuel g (get_or (tensor_at g p).src 0 none)
unfolding unwrap
unwrap-view fuel g p view = rw (view, unwrap) refl

unwrap-other :
    (fuel : ℕ) (g : List Tensor) (p : ℕ)
    → is_view_op (tensor_at g p).op ≡ false
    → unwrap (suc fuel) g (some p) ≡ some p
unfolding unwrap
unwrap-other fuel g p other = rw (other, unwrap) refl

unwrap_ends :
    (fuel : ℕ) (g : List Tensor) (p r : ℕ)
    → ViewsAreLater g
    → p < fuel
    → unwrap fuel g (some p) ≡ some r
    → is_view_op (tensor_at g r).op ≡ false
unwrap_ends zero g p r h low e = absurd (omega arith)
unwrap_ends (suc fuel) g p r h low e = elim (Bool-cases (is_view_op (tensor_at g p).op)) [
  | inr other ↦
      let same : p ≡ r = ground (arith, unwrap-other fuel g p other, e) in
      subst (λ q. is_view_op (tensor_at g q).op ≡ false) same other
  | inl view ↦ elim (Option-cases (get_or (tensor_at g p).src 0 none)) [
    | inl null ↦ cc (e, unwrap-view fuel g p view, null, unwrap_null fuel g)
    | inr (s, there) ↦
        let on : unwrap fuel g (some s) ≡ some r =
          ap (unwrap fuel g) (sym there) ∙ sym (unwrap-view fuel g p view) ∙ e in
        let less : s < p = h p s there in unwrap_ends fuel g s r h (omega arith) on
  ]
]

-- Where views have a larger number than their source, what a pointer leads to is not a view.
pub unwrap-producer :
    (g : List Tensor) (p r : ℕ)
    → ViewsAreLater g
    → p < length g
    → unwrap (length g) g (some p) ≡ some r
    → is_view_op (tensor_at g r).op ≡ false
unwrap-producer g p r h low e = unwrap_ends (length g) g p r h low e
