-- ===== src/Pmm/Spec.antt =====
-- What src/pmm.c promises, without its bitmap: a set of frames, some in use. A request is a call of
-- the allocator's interface in src/pmm.h.
use my_own_operating_system.Base.{
  ℕ, zero, suc, ◌+◌, ◌*◌, ◌/◌, Bool, true, false, ◌&&◌, Option, none, some, List, [], ◌∷◌, ltb, leb,
  if◌then◌else◌,
}
use my_own_operating_system.Pmm.{
  Pmm, block_size, alloc_block, free_block, reserve_region, free_region, get_free_blocks,
}

-- How many frames there are, and which are in use.
pub record Frames : Type 0 where
  pub count : ℕ
  pub used : ℕ → Bool

-- The frames from `lo` up to `hi`, as far as they are there, become used or free.
abbrev pub paint : Bool → ℕ → ℕ → Frames → Frames
paint v lo hi f = record f {
  used = λ k. if leb lo k && (ltb k hi && ltb k f.count) then v else f.used k;
}

-- The lowest free frame among the `left` frames from `i` on.
abbrev pub lowest_from : ℕ → ℕ → (ℕ → Bool) → Option ℕ
lowest_from i zero used = none
lowest_from i (suc left) used =
    let rest = lowest_from (i + 1) left used in if used i then rest else some i

abbrev pub free_below : (ℕ → Bool) → ℕ → ℕ
free_below used zero = 0
free_below used (suc n) = free_below used n + (if used n then 0 else 1)

pub data Request : Type 0 where
  allocate : Request
  give_back : ℕ → Request
  reserve : ℕ → ℕ → Request
  release : ℕ → ℕ → Request
  count_free : Request

abbrev pub taken : Option ℕ → Frames → Option ℕ × Frames
taken none f = (some 0, f)
taken (some b) f = (some (b * block_size), paint true b (b + 1) f)

-- The answer to a request, if it has one, and the frames after it.
abbrev pub promise : Request → Frames → Option ℕ × Frames
promise allocate f = taken (lowest_from 0 f.count f.used) f
promise (give_back ptr) f = (none, paint false (ptr / block_size) (ptr / block_size + 1) f)
promise (reserve base size) f =
    (none, paint true (base / block_size) (base / block_size + (size + 4095) / block_size) f)
promise (release base size) f =
    (none, paint false (base / block_size) (base / block_size + size / block_size) f)
promise count_free f = (some (free_below f.used f.count), f)

-- The same request, served by the code.
unfoldable pub serve : Request → Pmm → Option ℕ × Pmm
serve allocate s = let (address, t) = alloc_block s in (some address, t)
serve (give_back ptr) s = (none, free_block ptr s)
serve (reserve base size) s = (none, reserve_region base size s)
serve (release base size) s = (none, free_region base size s)
serve count_free s = (some (get_free_blocks s), s)

-- The answers to a sequence of requests, and the state at its end.
abbrev pub promises : List Request → Frames → List (Option ℕ) × Frames
promises [] f = ([], f)
promises (r ∷ rs) f = let (a, g) = promise r f in let (later, h) = promises rs g in (a ∷ later, h)

unfoldable pub serve_all : List Request → Pmm → List (Option ℕ) × Pmm
unfolding serve
serve_all [] s = ([], s)
serve_all (r ∷ rs) s = let (a, t) = serve r s in let (later, u) = serve_all rs t in (a ∷ later, u)
