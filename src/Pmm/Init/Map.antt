-- ===== src/Pmm/Init/Map.antt =====
-- The two walks of `pmm_init` over the memory map: they end, and free usable regions only.
use my_own_operating_system.Base.{
  ℕ, zero, suc, ◌+◌, ◌/◌, ◌%◌, ◌^◌, ◌≤◌, ◌<◌, ◌≡◌, refl, sym, ◌∙◌, ◌⊎◌, inl, inr, true, some, arith,
  ltb, ◌==◌, Bool-cases, eq_of_==, ltb-of_lt, ltb-of_le, ◌*◌, u32,
}
use mathlib.Core.Option.{some-injective}
use my_own_operating_system.Base.Memory.{Memory}
use my_own_operating_system.Base.Bits.{bit_at-full}
use my_own_operating_system.Pmm.{Pmm, block_size}
use my_own_operating_system.Pmm.Bitmap.{mark, IsWords}
use my_own_operating_system.Pmm.Count.{sum_below, sum_below_same}
use my_own_operating_system.Pmm.Block.{IsValid}
use my_own_operating_system.Pmm.Region.{Painted-released, free_region-Painted, first_block}
use my_own_operating_system.Pmm.Init.{
  entry_size, entry_addr, entry_len, entry_type, next_entry, detect_loop, free_entry, free_entries,
  track, fill, bitmap_size, raise_max,
}

-- An entry of usable RAM starts on a page boundary and lies below 4 GB.
abbrev pub IsRam : Memory → ℕ → Type 0
IsRam m e =
    entry_type m e ≡ 1
    → (entry_addr m e % block_size ≡ 0) × (entry_addr m e + entry_len m e ≤ 2 ^ 32)

-- The entries that a walk from `e` meets, up to the end of the map: none of them leads past the
-- address space.
pub data IsMap (m : Memory) (mmap_end : ℕ) : ℕ → Type 0 where
  past : {e : ℕ} → mmap_end ≤ e → IsMap m mmap_end e
  entry :
      {e : ℕ}
      → e < mmap_end
      → e + entry_size m e + 4 < 2 ^ 32
      → IsRam m e
      → IsMap m mmap_end (next_entry m e)
      → IsMap m mmap_end e

next_entry-gt : (m : Memory) (e : ℕ) → e + entry_size m e + 4 < 2 ^ 32 → e < next_entry m e
next_entry-gt m e h = omega arith

module _ (m : Memory) (mmap_end : ℕ) where
  pub detect_loop-total :
      (fuel : ℕ) {e : ℕ} (max_addr : ℕ)
      → IsMap m mmap_end e
      → mmap_end < e + fuel
      → 0 < fuel
      → (r : ℕ) × (detect_loop m mmap_end fuel e max_addr ≡ some r)
  unfolding detect_loop
  detect_loop-total zero max_addr map enough pos = absurd (omega (arith, pos))
  detect_loop-total (suc fuel) {e} max_addr (past done) enough pos =
      (max_addr, rw (ltb-of_le e mmap_end done))
  detect_loop-total (suc fuel) {e} max_addr (entry inside forward ram rest) enough pos =
      let further : e < next_entry m e = next_entry-gt m e forward in
      rw (ltb-of_lt e mmap_end inside) (
        detect_loop-total fuel (raise_max m e max_addr) rest (omega (arith, further, enough))
          (omega (arith, further, enough, inside)))

  pub free_entries-total :
      (fuel : ℕ) {e : ℕ} (s : Pmm)
      → IsMap m mmap_end e
      → mmap_end < e + fuel
      → 0 < fuel
      → (t : Pmm) × (free_entries m mmap_end fuel e s ≡ some t)
  unfolding free_entries
  free_entries-total zero s map enough pos = absurd (omega (arith, pos))
  free_entries-total (suc fuel) {e} s (past done) enough pos = (s, rw (ltb-of_le e mmap_end done))
  free_entries-total (suc fuel) {e} s (entry inside forward ram rest) enough pos =
      let further : e < next_entry m e = next_entry-gt m e forward in
      rw (ltb-of_lt e mmap_end inside) (
        free_entries-total fuel (free_entry m e s) rest (omega (arith, further, enough))
          (omega (arith, further, enough, inside)))

-- The whole frame lies in the RAM that the entry names as usable.
pub record IsUsable (m : Memory) (e k : ℕ) : Type 0 where
  pub usable : entry_type m e ≡ 1
  pub from : entry_addr m e ≤ k * block_size
  pub below : (k + 1) * block_size ≤ entry_addr m e + entry_len m e

-- What is freed with the address and the length cut to 32 bits lies in the entry.
freed-IsUsable :
    (m : Memory) (e k : ℕ)
    → entry_type m e ≡ 1
    → IsRam m e
    → first_block (u32 (entry_addr m e)) ≤ k
    → k < first_block (u32 (entry_addr m e)) + u32 (entry_len m e) / block_size
    → IsUsable m e k
freed-IsUsable m e k type ram from below =
    let (aligned, low) = ram type in
    record {
      usable = type;
      from = omega (arith, aligned, low, from, below);
      below = omega (arith, aligned, low, from, below);
    }

-- Some entry that the walk from `e` meets makes the frame usable.
pub data Covered (m : Memory) (mmap_end k : ℕ) : ℕ → Type 0 where
  here : {e : ℕ} → e < mmap_end → IsUsable m e k → Covered m mmap_end k e
  later : {e : ℕ} → e < mmap_end → Covered m mmap_end k (next_entry m e) → Covered m mmap_end k e

free_entry-IsValid :
    (m : Memory) (e : ℕ) (s : Pmm)
    → IsValid s
    → IsValid (free_entry m e s) × ((free_entry m e s).total_blocks ≡ s.total_blocks)
unfolding free_entry
free_entry-IsValid m e s v = elim (Bool-cases (entry_type m e == 1)) [
  | inl yes' ↦ rw yes' (
      let p =
        free_region-Painted (u32 (entry_addr m e)) (u32 (entry_len m e)) s (omega arith)
          (omega arith) v in
      (p.valid, p.total))
  | inr other ↦ rw other (v, refl)
]

free_entry-IsUsable :
    (m : Memory) (e k : ℕ) (s : Pmm)
    → IsValid s
    → IsRam m e
    → mark (free_entry m e s) k ≡ 0
    → (mark s k ≡ 0) ⊎ IsUsable m e k
unfolding free_entry
free_entry-IsUsable m e k s v ram h = elim (Bool-cases (entry_type m e == 1)) [
  | inl yes' ↦
      elim (Painted-released
        (free_region-Painted (u32 (entry_addr m e)) (u32 (entry_len m e)) s (omega arith)
          (omega arith) v)
        k (rw yes' at h)) [
          | inl before ↦ inl before
          | inr (from, below) ↦ inr (freed-IsUsable m e k (eq_of_== _ _ yes') ram from below)
        ]
  | inr other ↦ inl (rw other at h)
]

-- The second walk keeps the invariant and the tracked size, and what is free after it was free
-- before or lies in a usable region of the map.
pub free_entries-Covered :
    (m : Memory) (mmap_end fuel : ℕ) {e : ℕ} (s t : Pmm)
    → IsMap m mmap_end e
    → IsValid s
    → free_entries m mmap_end fuel e s ≡ some t
    → IsValid t
      × (t.total_blocks ≡ s.total_blocks)
      × ((k : ℕ) → mark t k ≡ 0 → (mark s k ≡ 0) ⊎ Covered m mmap_end k e)
unfolding free_entries
free_entries-Covered m mmap_end zero s t map v h = cc
free_entries-Covered m mmap_end (suc fuel) {e} s t (past done) v h =
    let same : s ≡ t = some-injective s t (rw (ltb-of_le e mmap_end done) at h) in
    rw (← same) (v, refl, λ k z. inl z)
free_entries-Covered m mmap_end (suc fuel) {e} s t (entry inside forward ram rest) v h =
    let one = free_entry-IsValid m e s v in
    let all =
      free_entries-Covered m mmap_end fuel (free_entry m e s) t rest one.0
        (rw (ltb-of_lt e mmap_end inside) at h) in
    (
      all.0,
      all.1 ∙ one.1,
      λ k z. elim (all.2 k z) [
        | inr covered ↦ inr (later inside covered)
        | inl free ↦ elim (free_entry-IsUsable m e k s v ram free) [
          | inl before ↦ inl before
          | inr usable ↦ inr (here inside usable)
        ]
      ],
    )

sum_below_ones : (n : ℕ) → sum_below (λ _. 1) n ≡ n
sum_below_ones zero = refl
sum_below_ones (suc n) = omega (arith, sum_below_ones n)

pub track-small : (max_addr : ℕ) (s : Pmm) → (track max_addr s).total_blocks < 2 ^ 20
unfolding track
track-small max_addr s = ground arith

pub track-IsWords : (max_addr : ℕ) (s : Pmm) → IsWords s → IsWords (track max_addr s)
unfolding track
track-IsWords max_addr s w i = w i

-- After the `memset` every tracked frame is marked, also those of the last, partial word.
pub fill-marked : (s : Pmm) (k : ℕ) → k < s.total_blocks → mark (fill s) k ≡ 1
unfolding fill
fill-marked s k h =
    let word : ltb (k / 32) (bitmap_size s / 4) ≡ true = ltb-of_lt _ _ (omega arith) in
    rw word (bit_at-full 32 (k % 32) (omega arith))

pub fill-IsValid : (s : Pmm) → IsWords s → s.total_blocks < 2 ^ 20 → IsValid (fill s)
unfolding fill
fill-IsValid s w small = record {
  words = λ i. ground (arith, w i);
  small = small;
  counted = sym (
      sum_below_same (mark (fill s)) (λ _. 1) s.total_blocks (λ k h. fill-marked s k h)
      ∙ sum_below_ones s.total_blocks);
}
