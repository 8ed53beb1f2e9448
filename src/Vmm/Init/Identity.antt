-- ===== src/Vmm/Init/Identity.antt =====
-- The loop of `vmm_init` of src/vmm.c maps every tracked frame to itself.
use my_own_operating_system.Base.{
  ℕ, zero, suc, ◌+◌, ◌-◌, ◌*◌, ◌/◌, ◌%◌, ◌^◌, ◌≤◌, ◌<◌, bit_or, ◌≡◌, refl, sym, ap, ◌∙◌, inl, inr,
  true, Option, none, some, arith, ltb, ◌==◌, Bool-cases, eq_of_==, ne_of_==, ==-of_ne, lt_of_ltb,
  le_of_ltb, add32, mul32,
}
use my_own_operating_system.Pmm.Spent.{Spent, Spent-took, Spent-add, Full-Exhausted}
use my_own_operating_system.Vmm.Map.Cost.{CostBy, map_page-CostBy}
use mathlib.Core.Path.{subst}
use my_own_operating_system.Pmm.{Pmm, bitmap_set, block_size, get_total_blocks}
use my_own_operating_system.Pmm.Bitmap.{mark, mark-set_self}
use my_own_operating_system.Pmm.Block.{IsValid, took, took-IsValid}
use my_own_operating_system.Pmm.Alloc.{IsFirst, alloc_block-Outcome}
use my_own_operating_system.Vmm.{Vmm, pd_index, map_page, clear_frame, flag_all}
use my_own_operating_system.Vmm.Walk.{lookup}
use my_own_operating_system.Vmm.Frames.{IsPaged, entry, lookup-absent, pd_index-lt, IsFirst-pos}
use my_own_operating_system.Vmm.Map.{
  page_of, translation_all, Mapped, MapOutcome, mapped, map_page-Mapped,
}
use my_own_operating_system.Vmm.Map as Map
use my_own_operating_system.Vmm.Map.Table.{took-kept}
use my_own_operating_system.Vmm.Init.{
  Machine, Mapping, halted, finished, map_next, map_all, enable_paging, init,
}

-- The pages below frame `n` translate to themselves, with all flags, and no page above does.
pub record IsIdentity (n : ℕ) (v : Vmm) : Type 0 where
  pub below : (a : ℕ) → a < n * block_size → lookup v a ≡ some (page_of a * block_size + 7)
  pub above : (a : ℕ) → n * block_size ≤ a → a < 2 ^ 32 → lookup v a ≡ none

-- The number of page tables for the pages below frame `n`.
abbrev pub tables : ℕ → ℕ
tables n = (n + 1023) / 1024

-- How the loop can go, from the allocator's state `s`: every page is mapped, with a frame for each
-- page table, or there are fewer free frames than page tables.
pub data IdentityOutcome (n directory : ℕ) (s : Pmm) : Mapping → Type 0 where
  exhausted : s.total_blocks < s.used_blocks + tables n → IdentityOutcome n directory s halted
  complete :
      (w : Vmm)
      → IsPaged w
      → IsIdentity n w
      → w.directory ≡ directory
      → Spent (tables n) s w.pmm
      → IdentityOutcome n directory s (finished w)

-- A page table is missing only for the first of its pages.
boundary :
    (n : ℕ) (v : Vmm)
    → n < 2 ^ 20
    → IsIdentity n v
    → entry v (pd_index (n * block_size)) % 2 ≡ 0
    → n % 1024 ≡ 0
boundary n v small id absent = elim (Bool-cases (n % 1024 == 0)) [
  | inl at ↦ eq_of_== _ _ at
  | inr within ↦
      let ne = ne_of_== _ _ within in
      let same : pd_index (n * block_size) ≡ pd_index ((n - 1) * block_size) = omega (arith, ne) in
      let found = id.below ((n - 1) * block_size) (omega (arith, ne)) in
      let missing =
        lookup-absent v ((n - 1) * block_size) (subst (λ i. entry v i % 2 ≡ 0) same absent) in
      cc (sym missing ∙ found)
]

-- One more page.
Mapped-IsIdentity :
    (n : ℕ) (v w : Vmm)
    → n < 2 ^ 20
    → IsIdentity n v
    → Mapped (n * block_size) (n * block_size + flag_all) v w
    → IsIdentity (n + 1) w
Mapped-IsIdentity n v w small id m = record {
  below = λ a h. elim (Bool-cases (ltb a (n * block_size))) [
    | inl low ↦
        let lt = lt_of_ltb a (n * block_size) low in
        m.elsewhere a (omega arith) (λ e. absurd (omega arith)) ∙ id.below a lt
    | inr high ↦
        let same : page_of a ≡ n = omega (arith, le_of_ltb a (n * block_size) high) in
        m.here a (omega arith) (omega arith)
        ∙ translation_all n
        ∙ ap (λ k. some (k * block_size + 7)) (sym same)
  ];
  above = λ a h lt. m.elsewhere a lt (λ e. absurd (omega arith)) ∙ id.above a (omega arith) lt;
}

-- What a longer run of the loop comes to, once the next page was tried.
map_next-Identity :
    (n count : ℕ) (s : Pmm) (v : Vmm) (rest : Vmm → Mapping)
    → n < count
    → n < 2 ^ 20
    → IsIdentity n v
    → Spent (tables n) s v.pmm
    → ((w : Vmm)
        → IsPaged w
        → IsIdentity (n + 1) w
        → Spent (tables (n + 1)) s w.pmm
        → IdentityOutcome count w.directory s (rest w))
    → (r : Option Vmm) → MapOutcome (n * block_size) (n * block_size) flag_all v r
    → CostBy (n * block_size) v r
    → IsPaged v
    → IdentityOutcome count v.directory s (map_next rest r)
map_next-Identity n count s v rest lt small id spent further _ (Map.halted absent full) cost paged =
    exhausted (
      omega (
        arith,
        lt,
        spent.total,
        spent.used,
        Full-Exhausted v.pmm paged.valid full,
        boundary n v small id absent,
      ))
map_next-Identity n count s v rest lt small id spent further _ (mapped w m) cost paged =
    subst (λ d. IdentityOutcome count d s (rest w)) m.directory
      (further w m.paged (Mapped-IsIdentity n v w small id m) (one_more cost))
  where
    one_more : CostBy (n * block_size) v (some w) → Spent (tables (n + 1)) s w.pmm
    one_more (inl (present, c)) = record {
      total = c.total ∙ spent.total;
      used = omega (arith, spent.used, c.used);
    }
    one_more (inr (absent, c)) = record {
      total = c.total ∙ spent.total;
      used = omega (arith, spent.used, c.used, boundary n v small id absent);
    }

map_all-Identity :
    (fuel n count : ℕ) (s : Pmm) (v : Vmm)
    → n ≤ count
    → count < 2 ^ 20
    → count < n + fuel
    → IsPaged v
    → IsIdentity n v
    → Spent (tables n) s v.pmm
    → IdentityOutcome count v.directory s (map_all fuel (n * block_size) (count * block_size) v)
unfolding map_all
map_all-Identity zero n count s v le small enough paged id spent = absurd (omega arith)
map_all-Identity (suc fuel) n count s v le small enough paged id spent =
    elim (Bool-cases (ltb (n * block_size) (count * block_size))) [
      | inl more ↦
          let lt : n < count = omega (arith, lt_of_ltb _ _ more) in
          let step : add32 (n * block_size) block_size ≡ (n + 1) * block_size = omega arith in
          rw (more, step)
            (map_next-Identity n count s v
              (λ w. map_all fuel ((n + 1) * block_size) (count * block_size) w) lt (omega arith) id
              spent
              (λ w paged' id' spent'.
                map_all-Identity fuel (n + 1) count s w (omega arith) small (omega arith) paged' id'
                  spent')
              (map_page (n * block_size) (n * block_size) flag_all v)
              (map_page-Mapped (n * block_size) (n * block_size) flag_all v paged (omega arith)
                (omega arith) (omega arith) (omega arith))
              (map_page-CostBy (n * block_size) (n * block_size) flag_all v paged) paged)
      | inr done ↦
          let e : n ≡ count = omega (arith, le_of_ltb _ _ done) in
          rw done (
            complete v paged (subst (λ k. IsIdentity k v) e id) refl
              (subst (λ k. Spent (tables k) s v.pmm) e spent))
    ]

-- The state in which the loop starts.
abbrev fresh : ℕ → Vmm → Vmm
fresh b v = record {
  ram = clear_frame (b * block_size) v.ram;
  pmm = took b v.pmm;
  directory = b * block_size;
}

module _ (v : Vmm) (valid : IsValid v.pmm) (zero_used : mark v.pmm 0 ≡ 1)
    (words : (a : ℕ) → v.ram a < 2 ^ 32) (b : ℕ) (first : IsFirst v.pmm b) where
  fresh-entry : (i : ℕ) → i < 1024 → entry (fresh b v) i ≡ 0
  unfolding clear_frame
  fresh-entry i h = ground arith

  fresh-IsPaged : IsPaged (fresh b v)
  unfolding clear_frame
  fresh-IsPaged = record {
    valid = took-IsValid valid first.inside first.free;
    zero_used = took-kept v.pmm b 0 zero_used;
    words = λ a. ground (arith, words a);
    aligned = omega arith;
    fits = omega (arith, first.inside, valid.small);
    directory_used =
        let q : b * block_size / block_size ≡ b = omega arith in rw q (mark-set_self v.pmm b);
    table_used = λ i h odd. absurd (omega (arith, odd, fresh-entry i h));
    table_apart = λ i h odd. absurd (omega (arith, odd, fresh-entry i h));
    tables_apart = λ i j h h' ne odd. absurd (omega (arith, odd, fresh-entry i h));
  }

  fresh-IsIdentity : IsIdentity 0 (fresh b v)
  fresh-IsIdentity = record {
    below = λ a h. absurd (omega arith);
    above = λ a h lt.
        lookup-absent (fresh b v) a (ap (λ e. e % 2) (fresh-entry (pd_index a) (pd_index-lt a lt)));
  }

-- Where `vmm_init` ends: paging is on with every tracked frame mapped to itself, or there were too
-- few free frames for the directory and the page tables.
pub data Started (c : Machine) : Option Machine → Type 0 where
  starved :
      c.vmm.pmm.total_blocks < c.vmm.pmm.used_blocks + (1 + tables c.vmm.pmm.total_blocks)
      → Started c none
  started :
      (c' : Machine)
      → IsPaged c'.vmm
      → IsIdentity c.vmm.pmm.total_blocks c'.vmm
      → c'.cr3 ≡ c'.vmm.directory
      → c'.cr0 ≡ bit_or c.cr0 0x8000_0000
      → c'.faults_handled ≡ true
      → Spent (1 + tables c.vmm.pmm.total_blocks) c.vmm.pmm c'.vmm.pmm
      → Started c (some c')

Started-of_Outcome :
    (c : Machine) (directory b : ℕ) (r : Mapping)
    → IdentityOutcome c.vmm.pmm.total_blocks directory (took b c.vmm.pmm) r
    → Started c (enable_paging (record c { faults_handled = true }) r)
Started-of_Outcome c directory b _ (exhausted few) =
    let p = Spent-took b c.vmm.pmm in starved (omega (arith, few, p.total, p.used))
Started-of_Outcome c directory b _ (complete w paged id e spent) =
    started _ paged id refl refl refl (Spent-add (Spent-took b c.vmm.pmm) spent)

-- From the allocator's invariant with frame 0 in use, 32-bit words in memory, and fuel above the
-- number of tracked frames, `vmm_init` ends with paging on, the fault handler registered, the
-- paging invariant, every address below the tracked frames' end mapped to itself with all flags,
-- no other address mapped, and at most one frame taken for the directory and one for each 1024
-- tracked frames or part of them; or it halts, and then fewer frames than these were free.
pub init-Started :
    (fuel : ℕ) (c : Machine)
    → IsValid c.vmm.pmm
    → mark c.vmm.pmm 0 ≡ 1
    → ((a : ℕ) → c.vmm.ram a < 2 ^ 32)
    → c.vmm.pmm.total_blocks < fuel
    → Started c (init fuel c)
unfolding init get_total_blocks bitmap_set
init-Started fuel c valid zero_used words enough = elim (alloc_block-Outcome c.vmm.pmm valid) [
  | inr (full, e) ↦ rw e (starved (omega (arith, Full-Exhausted c.vmm.pmm valid full)))
  | inl (b, first, e) ↦
      let count = c.vmm.pmm.total_blocks in
      let size : mul32 count block_size ≡ count * block_size = omega (arith, valid.small) in
      rw
        (
          e,
          ==-of_ne (b * block_size) 0
              (λ z. IsFirst-pos c.vmm.pmm b zero_used first (omega (arith, z))),
          size,
        )
        (Started-of_Outcome c (b * block_size) b
          (map_all fuel (0 * block_size) (count * block_size) (fresh b c.vmm))
          (map_all-Identity fuel 0 count (took b c.vmm.pmm) (fresh b c.vmm) (omega arith)
            valid.small (omega arith) (fresh-IsPaged c.vmm valid zero_used words b first)
            (fresh-IsIdentity c.vmm valid zero_used words b first)
            (record { total = refl; used = omega arith })))
]
