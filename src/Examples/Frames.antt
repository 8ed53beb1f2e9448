-- ===== src/Examples/Frames.antt =====
-- A machine of 40 frames on which src/pmm.c is run.
use my_own_operating_system.Base.{
  ◌⊎◌, none, some, List, [], ◌∷◌, ◌/◌, ◌%◌, ◌≡◌, refl, arith, ◌==◌, if◌then◌else◌,
}
use my_own_operating_system.Base.Bits.{bit_at-full}
use my_own_operating_system.Pmm.{Pmm, alloc_block, free_block}
use my_own_operating_system.Pmm.Block.{IsValid}
use my_own_operating_system.Pmm.Spec.{Request, allocate, give_back, reserve, count_free, promises}
use my_own_operating_system.Pmm.Refine.{Refines, frames_of, serve_all-Refines}
use my_own_operating_system.Pmm.Alloc.{IsFirst, Outcome, alloc_block-Outcome}
use my_own_operating_system.Boot.{self_test, passed, null_block}
use my_own_operating_system.Boot.Passes.{self_test-passed}
use my_own_operating_system.Pmm.Spent.{Exhausted}
use my_own_operating_system.Pmm.Laws.{free_block-alloc_block}

-- The first 32 of 40 frames are in use.
abbrev pub half_used : Pmm
half_used = record {
  bitmap = λ i. if i == 0 then 0xFFFF_FFFF else 0;
  ram_size = 0x28000;
  total_blocks = 40;
  used_blocks = 32;
}

pub half_used-IsValid : IsValid half_used
half_used-IsValid = record { words = λ i. ground arith; small = omega arith; counted = refl }

pub half_used-IsFirst : IsFirst half_used 32
half_used-IsFirst = record {
  inside = omega arith;
  free = refl;
  earlier =
      λ k h. (let w : k / 32 ≡ 0 = omega arith in rw w (bit_at-full 32 (k % 32) (omega arith)));
}

alloc_block-Outcome_example : Outcome half_used (alloc_block half_used)
alloc_block-Outcome_example = alloc_block-Outcome half_used half_used-IsValid

allocated : (alloc_block half_used).0 ≡ 0x20000
unfolding alloc_block
allocated = refl

allocated_next : (alloc_block (alloc_block half_used).1).0 ≡ 0x21000
unfolding alloc_block
allocated_next = refl

free_block-alloc_block_example :
    free_block (alloc_block half_used).0 (alloc_block half_used).1 ≡ half_used
free_block-alloc_block_example =
    free_block-alloc_block half_used half_used-IsValid (λ z. absurd (omega (arith, allocated, z)))

self_test-passed_example :
    (self_test half_used ≡ (passed, half_used))
    ⊎ ((t : Pmm) × (self_test half_used ≡ (null_block, t)) × Exhausted 2 half_used)
self_test-passed_example = self_test-passed half_used half_used-IsValid refl

-- A frame is taken, given back and taken again, and a region is reserved and counted.
abbrev requests : List Request
requests = allocate ∷ give_back 0x20000 ∷ allocate ∷ reserve 0x22000 0x1800 ∷ count_free ∷ []

serve_all-Refines_example : Refines requests half_used
serve_all-Refines_example =
    serve_all-Refines requests half_used (tt, (tt, (tt, ((omega arith, omega arith), (tt, tt)))))
      half_used-IsValid

-- The answers: twice the frame at 0x20000, and five free frames.
answered :
    (promises requests (frames_of half_used)).0
    ≡ (some 0x20000 ∷ none ∷ some 0x20000 ∷ none ∷ some 5 ∷ [])
answered = refl
