-- ===== src/Bitmap.antt =====
-- src/backend/scheduler.h, the bitmap helpers of `expert_scheduler`: bit `e` of an array of 64-bit
-- words says whether expert `e` of a layer is needed. `BITMAP_WORDS` is of src/backend/slot.h.
pub mod Laws
pub mod Count
use Prim.Native.Nat.{bit_and, bit_or}
use stream_mo_e.Common.{
  ℕ, zero, suc, ◌+◌, ◌-◌, ◌*◌, ◌/◌, ◌%◌, ◌^◌, Bool, List, ◌==◌, if◌then◌else◌, get_or, set,
  replicate,
}

abbrev pub bitmap_words : ℕ
bitmap_words = 8

-- `(bm[e >> 6] >> (e & 63)) & 1`
unfoldable pub bit_test : List ℕ → ℕ → Bool
bit_test bm e = bit_and (get_or bm (e / 64) 0 / 2 ^ (e % 64)) 1 == 1

-- `bm[e >> 6] |= (1ull << (e & 63))`
unfoldable pub bit_set : List ℕ → ℕ → List ℕ
bit_set bm e = set bm (e / 64) (bit_or (get_or bm (e / 64) 0) (2 ^ (e % 64)))

-- `bm[e >> 6] &= ~(1ull << (e & 63))`
unfoldable pub bit_clear : List ℕ → ℕ → List ℕ
bit_clear bm e = set bm (e / 64) (bit_and (get_or bm (e / 64) 0) (2 ^ 64 - 1 - 2 ^ (e % 64)))

-- The loop over the `n` experts from `e` on, with the count so far.
unfoldable pub count_from : List ℕ → ℕ → ℕ → ℕ → ℕ
unfolding bit_test
count_from bm zero e c = c
count_from bm (suc n) e c = count_from bm n (e + 1) (if bit_test bm e then c + 1 else c)

unfoldable pub bit_count : List ℕ → ℕ → ℕ
unfolding count_from
bit_count bm n_experts = count_from bm n_experts 0 0

-- A bitmap on the stack, `{ 0 }`.
abbrev pub no_bits : List ℕ
no_bits = replicate bitmap_words 0
