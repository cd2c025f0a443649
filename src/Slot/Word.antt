-- ===== src/Slot/Word.antt =====
-- src/backend/slot.h, `slot_word` and its three readers: a 64-bit word that packs the state
-- (bits 0 to 2), the reference count (bits 3 to 31) and the generation (bits 32 to 63).
pub mod Layout
use Prim.Native.Nat.{bit_and, bit_or}
use stream_mo_e.Common.{ℕ, ◌+◌, ◌-◌, ◌*◌, ◌/◌, ◌%◌, ◌^◌}

-- `enum slot_state`, by its numbers.
abbrev pub slot_empty : ℕ
slot_empty = 0

abbrev pub slot_io_inflight : ℕ
slot_io_inflight = 1

abbrev pub slot_ready : ℕ
slot_ready = 2

abbrev pub slot_evicting : ℕ
slot_evicting = 3

abbrev pub slot_failed : ℕ
slot_failed = 4

abbrev pub slot_state_mask : ℕ
slot_state_mask = 0x7

-- bits 3 to 31
abbrev pub slot_refcnt_mask : ℕ
slot_refcnt_mask = 0xFFFF_FFF8

-- `static_cast<uint32_t>`
abbrev u32 : ℕ → ℕ
u32 n = n % 2 ^ 32

-- `static_cast<uint64_t>` of a shifted value
abbrev u64 : ℕ → ℕ
u64 n = n % 2 ^ 64

unfoldable pub slot_word_state : ℕ → ℕ
slot_word_state w = u32 (bit_and w slot_state_mask)

unfoldable pub slot_word_refcount : ℕ → ℕ
slot_word_refcount w = u32 (bit_and w slot_refcnt_mask / 2 ^ 3)

unfoldable pub slot_word_generation : ℕ → ℕ
slot_word_generation w = u32 (w / 2 ^ 32)

unfoldable pub slot_word : ℕ → ℕ → ℕ → ℕ
slot_word state refcount generation =
    bit_or (bit_or (u64 (generation * 2 ^ 32)) (u64 (refcount * 2 ^ 3)))
      (bit_and state slot_state_mask)
