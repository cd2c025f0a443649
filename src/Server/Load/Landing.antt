-- ===== src/Server/Load/Landing.antt =====
-- Which slices are copied from the staging area into their slot.
use Prim.Native.Nat.{bit_and}
use stream_mo_e.Common.{
  ℕ, zero, suc, ◌+◌, ◌-◌, ◌*◌, ◌%◌, ◌^◌, ◌≤◌, ◌<◌, ◌≡◌, refl, ◌∙◌, inl, inr, Bool, true, false, not,
  ◌&&◌, arith, ◌==◌, set, if◌then◌else◌, Bool-cases,
}
use native.Mathlib.Nat.{pow-suc}
use stream_mo_e.Common.Bits.{bit_and_mask}
use stream_mo_e.Bitmap.{bit_test}
use stream_mo_e.Server.{Server, AsyncLoad}
use stream_mo_e.Server.Active.{active_settle, active_fail}
use stream_mo_e.Server.Load.{Completion, staging_bit, settle_slot, settle_active, complete}

pow_eight : (k : ℕ) → 2 ^ (k + 8) ≡ 2 ^ k * 256
pow_eight zero = refl
pow_eight (suc k) =
    let next : suc k + 8 ≡ suc (k + 8) = omega arith in
    rw next (omega (arith, pow-suc 2 (k + 8), pow-suc 2 k, pow_eight k))

-- The mask has no bit for a slice from number 8 up to 31.
staging_bit_high : (i : ℕ) → 8 ≤ i → i < 32 → staging_bit i ≡ 0
staging_bit_high i h low =
    let same : i % 32 ≡ i = omega arith in
    let split : i - 8 + 8 ≡ i = omega arith in
    let whole : 2 ^ i ≡ 2 ^ (i - 8) * 256 = rw split at (pow_eight (i - 8)) in
    rw same (omega (arith, whole))

active_settle-landed :
    (v : Server) (layer e slot : ℕ) → (active_settle v layer e slot).landed ≡ v.landed
unfolding active_settle
active_settle-landed v layer e slot = ground arith

settle_slot-landed : (v : Server) (t : AsyncLoad) → (settle_slot v t).landed ≡ v.landed
unfolding settle_slot
settle_slot-landed v t = elim (Bool-cases t.failed) [
  | inl bad ↦ rw bad refl
  | inr good ↦ rw good refl
]

settle_active-landed : (v : Server) (t : AsyncLoad) → (settle_active v t).landed ≡ v.landed
unfolding settle_active active_fail
settle_active-landed v t =
    let wanted = v.present && (t.layer == v.layer && bit_test v.still_need t.expert) in
    elim (Bool-cases (not t.failed && wanted)) [
      | inl settles ↦ rw settles (active_settle-landed v t.layer t.expert t.slot)
      | inr other ↦ rw other (elim (Bool-cases (t.failed && wanted)) [
        | inl fails ↦ rw fails refl
        | inr rest ↦ rw rest refl
      ])
    ]

not_staged :
    (e f : Bool) (mask i : ℕ)
    → 8 ≤ i
    → i < 32
    → (not e && (not f && not (bit_and mask (staging_bit i) == 0))) ≡ false
not_staged e f mask i h low = rw (staging_bit_high i h low) (ground (arith, bit_and_mask 0 mask))

-- A completion of a slice of number 8 to 31 copies nothing into the slot: the mask of the slices that
-- were read to the staging area has eight bits, whatever the plan of the load says of that slice.
pub complete-high_slice :
    (v : Server) (c : Completion) (t : AsyncLoad)
    → 8 ≤ c.slice
    → c.slice < 32
    → (complete v c t).landed ≡ v.landed
unfolding complete
complete-high_slice v c t h low =
    let t1 = record t { failed = if c.error then true else t.failed; pending = t.pending - 1 } in
    let v2 = record v { loads = set v.loads c.idx t1 } in
    rw (not_staged c.error t.failed t.staging_mask c.slice h low)
      (elim (Bool-cases (t.pending - 1 == 0)) [
        | inl over ↦
            rw over (settle_active-landed (settle_slot v2 t1) t1 ∙ settle_slot-landed v2 t1)
        | inr waits ↦ rw waits refl
      ])
