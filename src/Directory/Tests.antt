-- ===== src/Directory/Tests.antt =====
-- The theorems of the directory at a directory with two layers, two experts and two pools.
use stream_mo_e.Common.{◌≡◌, refl, some, arith, if◌then◌else◌}
use stream_mo_e.Directory.{
  Directory, ready, slot_unassigned, create, is_ready, find, scan, scan_from, state, slot,
  set_ready, transition,
}
use stream_mo_e.Directory.Index.{InRange}
use stream_mo_e.Directory.Laws.{same_cell, create-IsValid, find-transition}
use stream_mo_e.Directory.Scan.{Scanned, scan-Scanned}

abbrev two_by_two : Directory
two_by_two = create 2 2 2

-- Expert 1 of layer 0 has slot 3 in pool 1.
abbrev with_copy : Directory
with_copy = set_ready two_by_two 0 1 1 3

cell-InRange : InRange two_by_two 0 1 1
unfolding create
cell-InRange = record { layer_lt = omega arith; expert_lt = omega arith; pool_lt = omega arith }

scan_run : scan with_copy 0 1 ≡ (3, some 1)
unfolding scan scan_from find state slot set_ready create
scan_run = refl

find-transition_example : find (transition two_by_two 0 1 1 ready 3) 0 1 1 ≡ (
    if same_cell 0 1 1 0 1 1
    then if is_ready ready then 3 else slot_unassigned
    else find two_by_two 0 1 1)
find-transition_example =
    find-transition two_by_two 0 1 1 ready 3 (create-IsValid 2 2 2) cell-InRange 0 1 1 cell-InRange

scan-Scanned_example : Scanned with_copy 0 1 0 (with_copy.n_pools) (scan with_copy 0 1)
scan-Scanned_example = scan-Scanned with_copy 0 1
