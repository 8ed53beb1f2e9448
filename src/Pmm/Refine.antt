-- ===== src/Pmm/Refine.antt =====
-- src/pmm.c keeps the promise of the abstract set of frames.
use my_own_operating_system.Base.{
  ℕ, zero, suc, ◌+◌, ◌/◌, ◌^◌, ◌≤◌, ◌<◌, ◌≡◌, refl, sym, ap, ap₂, ◌∙◌, fun_ext, inl, inr, Bool,
  true, false, ◌&&◌, none, some, List, [], ◌∷◌, arith, ltb, leb, ◌==◌, if◌then◌else◌, Bool-cases,
  eq_of_==, ne_of_==, ==-of_eq, ==-of_ne, lt_of_ltb, le_of_ltb,
}
use mathlib.Core.Path.{subst}
use my_own_operating_system.Pmm.{Pmm, block_size, get_free_blocks}
use my_own_operating_system.Pmm.Bitmap.{mark}
use my_own_operating_system.Pmm.Count.{sum_below, sum_below-le}
use my_own_operating_system.Pmm.Block.{IsValid, Marked, took, took-Marked, took-IsValid, mark-lt}
use my_own_operating_system.Pmm.Region.{
  Painted, first_block, round_up, reserve_region-Painted, free_region-Painted, free_block-Painted,
}
use my_own_operating_system.Pmm.Alloc.{IsFirst, alloc_block-Outcome}
use my_own_operating_system.Pmm.Spec.{
  Frames, paint, lowest_from, free_below, Request, allocate, give_back, reserve, release,
  count_free, taken, promise, serve, promises, serve_all,
}

-- What the abstract view keeps of the allocator's state.
abbrev pub frames_of : Pmm → Frames
frames_of s = record { count = s.total_blocks; used = λ k. mark s k == 1 }

-- A request that src/pmm.c is meant for: 32-bit numbers, and no size whose rounding wraps.
abbrev pub IsRequest : Request → Type 0
IsRequest allocate = Unit
IsRequest (give_back ptr) = Unit
IsRequest (reserve base size) = (base < 2 ^ 32) × (size + 4095 < 2 ^ 32)
IsRequest (release base size) = (base < 2 ^ 32) × (size < 2 ^ 32)
IsRequest count_free = Unit

abbrev pub AllRequests : List Request → Type 0
AllRequests [] = Unit
AllRequests (r ∷ rs) = IsRequest r × AllRequests rs

frames_of-paint :
    (v : ℕ) (lo hi : ℕ) (s t : Pmm)
    → Painted v lo hi s t
    → frames_of t ≡ paint (v == 1) lo hi (frames_of s)
frames_of-paint v lo hi s t p = λ i. record { count = p.total i; used = fun_ext at i }
  where
    at :
        (k : ℕ)
        → (mark t k == 1)
          ≡ (if leb lo k && (ltb k hi && ltb k s.total_blocks) then v == 1 else mark s k == 1)
    at k = elim (Bool-cases (leb lo k)) [
      | inr low ↦ rw low (ap (λ m. m == 1) (p.below k (ground (arith, low))))
      | inl from ↦ elim (Bool-cases (ltb k hi)) [
        | inr high ↦ rw (from, high) (ap (λ m. m == 1) (p.above k (le_of_ltb k hi high)))
        | inl below ↦ elim (Bool-cases (ltb k s.total_blocks)) [
          | inl tracked ↦
              rw (from, below, tracked)
                (ap (λ m. m == 1)
                  (p.inside k (ground (arith, from)) (lt_of_ltb k hi below)
                    (lt_of_ltb k s.total_blocks tracked)))
          | inr beyond ↦
              rw (from, below, beyond)
                (ap (λ m. m == 1) (p.untracked k (le_of_ltb k s.total_blocks beyond)))
        ]
      ]
    ]

lowest_from-none :
    (used : ℕ → Bool) (i left : ℕ)
    → ((k : ℕ) → i ≤ k → k < i + left → used k ≡ true)
    → lowest_from i left used ≡ none
lowest_from-none used i zero all = refl
lowest_from-none used i (suc left) all =
    rw (all i (omega arith) (omega arith)) (
      lowest_from-none used (i + 1) left (λ k lo hi. all k (omega (arith, lo)) (omega (arith, hi))))

lowest_from-some :
    (used : ℕ → Bool) (b i left : ℕ)
    → i ≤ b
    → b < i + left
    → ((k : ℕ) → k < b → used k ≡ true)
    → used b ≡ false
    → lowest_from i left used ≡ some b
lowest_from-some used b i zero lo hi all free = absurd (omega (arith, lo, hi))
lowest_from-some used b i (suc left) lo hi all free = elim (Bool-cases (i == b)) [
  | inl here ↦ let e : i ≡ b = eq_of_== i b here in rw (e, free) refl
  | inr before ↦
      let lt : i < b = omega (arith, lo, ne_of_== i b before) in
      rw (all i lt)
        (lowest_from-some used b (i + 1) left (omega (arith, lt)) (omega (arith, hi)) all free)
]

free_below-sum : (s : Pmm) (n : ℕ) → free_below (λ k. mark s k == 1) n + sum_below (mark s) n ≡ n
free_below-sum s zero = refl
free_below-sum s (suc n) = elim (Bool-cases (mark s n == 1)) [
  | inl one ↦ rw one (omega (arith, free_below-sum s n, eq_of_== _ _ one))
  | inr not' ↦ rw not' (omega (arith, free_below-sum s n, ne_of_== _ _ not', mark-lt s n))
]

took-Painted : (s : Pmm) (b : ℕ) → IsValid s → IsFirst s b → Painted 1 b (b + 1) s (took b s)
took-Painted s b valid first =
    let m : Marked b 1 s (took b s) = took-Marked in
    record {
      inside = λ k lo hi tracked.
          let e : k ≡ b = omega (arith, lo, hi) in ap (mark (took b s)) e ∙ m.here;
      below = λ k lt. m.elsewhere k (λ e. absurd (omega (arith, lt, e)));
      above = λ k ge. m.elsewhere k (λ e. absurd (omega (arith, ge, e)));
      untracked = λ k ge. m.elsewhere k (λ e. absurd (omega (arith, ge, e, first.inside)));
      total = m.total;
      ram = m.ram;
      valid = took-IsValid valid first.inside first.free;
    }

-- One request: the code gives the promised answer and keeps the promised frames.
record Kept (r : Request) (s : Pmm) : Type 0 where
  pub answer : (serve r s).0 ≡ (promise r (frames_of s)).0
  pub frames : frames_of (serve r s).1 ≡ (promise r (frames_of s)).1
  pub valid : IsValid (serve r s).1

Kept-Painted :
    (v lo hi : ℕ) (r : Request) (s : Pmm)
    → (serve r s).0 ≡ (promise r (frames_of s)).0
    → (promise r (frames_of s)).1 ≡ paint (v == 1) lo hi (frames_of s)
    → Painted v lo hi s (serve r s).1
    → Kept r s
Kept-Painted v lo hi r s answer same p = record {
  answer = answer;
  frames = frames_of-paint v lo hi s (serve r s).1 p ∙ sym same;
  valid = p.valid;
}

serve-Kept : (r : Request) (s : Pmm) → IsRequest r → IsValid s → Kept r s
unfolding serve get_free_blocks
serve-Kept allocate s ok valid = elim (alloc_block-Outcome s valid) [
  | inl (b, first, e) ↦
      let found : lowest_from 0 s.total_blocks (λ k. mark s k == 1) ≡ some b =
        lowest_from-some (λ k. mark s k == 1) b 0 s.total_blocks (omega arith)
          (omega (arith, first.inside)) (λ k h. ==-of_eq (mark s k) 1 (first.earlier k h))
          (==-of_ne (mark s b) 1 (λ one. absurd (omega (arith, one, first.free)))) in
      record {
        answer = ap (λ q. some q.0) e ∙ sym (ap (λ l. (taken l (frames_of s)).0) found);
        frames =
            ap (λ q. frames_of q.1) e
            ∙ frames_of-paint 1 b (b + 1) s (took b s) (took-Painted s b valid first)
            ∙ sym (ap (λ l. (taken l (frames_of s)).1) found);
        valid =
            subst (λ (q : ℕ × Pmm). IsValid q.1) (sym e)
              (took-IsValid valid first.inside first.free);
      }
  | inr (full, e) ↦
      let found : lowest_from 0 s.total_blocks (λ k. mark s k == 1) ≡ none =
        lowest_from-none (λ k. mark s k == 1) 0 s.total_blocks
          (λ k lo hi. ==-of_eq (mark s k) 1 (full k (omega (arith, hi)))) in
      record {
        answer = ap (λ q. some q.0) e ∙ sym (ap (λ l. (taken l (frames_of s)).0) found);
        frames = ap (λ q. frames_of q.1) e ∙ sym (ap (λ l. (taken l (frames_of s)).1) found);
        valid = subst (λ (q : ℕ × Pmm). IsValid q.1) (sym e) valid;
      }
]
serve-Kept (give_back ptr) s ok valid =
    Kept-Painted 0 (first_block ptr) (first_block ptr + 1) (give_back ptr) s refl refl
      (free_block-Painted ptr s valid)
serve-Kept (reserve base size) s ok valid =
    Kept-Painted 1 (first_block base) (first_block base + round_up size) (reserve base size) s refl
      (ap (λ n. paint true (base / block_size) (base / block_size + n) (frames_of s)) whole)
      (reserve_region-Painted base size s ok.0 (omega (arith, ok.1)) valid)
  where
    whole : (size + 4095) / block_size ≡ round_up size
    whole = omega (arith, ok.1)
serve-Kept (release base size) s ok valid =
    Kept-Painted 0 (first_block base) (first_block base + size / block_size) (release base size) s
      refl refl (free_region-Painted base size s ok.0 ok.1 valid)
serve-Kept count_free s ok valid = record {
  answer = ap some (
      omega (
        arith,
        valid.small,
        valid.counted,
        sum_below-le (mark s) s.total_blocks (mark-lt s),
        free_below-sum s s.total_blocks,
      ));
  frames = refl;
  valid = valid;
}

-- What a run of requests comes to.
pub record Refines (rs : List Request) (s : Pmm) : Type 0 where
  pub answers : (serve_all rs s).0 ≡ (promises rs (frames_of s)).0
  pub frames : frames_of (serve_all rs s).1 ≡ (promises rs (frames_of s)).1
  pub valid : IsValid (serve_all rs s).1

-- Under the allocator's invariant, for any sequence of requests with 32-bit addresses and sizes
-- that do not wrap when they are rounded up, the code gives the same answers as the abstract
-- allocator of Pmm/Spec, one by one, and ends in a state that keeps the invariant and whose marks
-- are the abstract frames.
pub serve_all-Refines : (rs : List Request) (s : Pmm) → AllRequests rs → IsValid s → Refines rs s
unfolding serve_all
serve_all-Refines [] s ok valid = record { answers = refl; frames = refl; valid = valid }
serve_all-Refines (r ∷ rs) s ok valid =
    let one = serve-Kept r s ok.0 valid in
    let rest = serve_all-Refines rs (serve r s).1 ok.1 one.valid in
    record {
      answers =
          ap₂ (λ a as'. a ∷ as') one.answer (rest.answers ∙ ap (λ f. (promises rs f).0) one.frames);
      frames = rest.frames ∙ ap (λ f. (promises rs f).1) one.frames;
      valid = rest.valid;
    }
