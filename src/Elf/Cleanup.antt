-- ===== src/Elf/Cleanup.antt =====
-- The clean-up of `elf_load` in src/elf.c gives back the frames that it recorded, and no others.
use my_own_operating_system.Base.{
  ℕ, ◌*◌, ◌<◌, ◌≡◌, refl, sym, ap, ◌∙◌, ◌≢◌, ◌⊎◌, inl, inr, none, List, [], ◌∷◌, arith, ◌==◌,
  Bool-cases, eq_of_==, ne_of_==,
}
use my_own_operating_system.Pmm.{Pmm, block_size, free_block}
use my_own_operating_system.Pmm.Bitmap.{mark}
use my_own_operating_system.Pmm.Block.{IsValid, Marked}
use my_own_operating_system.Pmm.Laws.{free_block-Marked, free_block-IsValid}
use my_own_operating_system.Elf.{Loader, returned, failed, finish, free_all}

-- The addresses of a list of frames.
abbrev pub addresses : List ℕ → List ℕ
addresses [] = []
addresses (b ∷ bs) = b * block_size ∷ addresses bs

abbrev pub All : (ℕ → Type 0) → List ℕ → Type 0
All p [] = Unit
All p (b ∷ bs) = p b × All p bs

abbrev pub Among : ℕ → List ℕ → Type 0
Among k [] = ⊥
Among k (b ∷ bs) = (b ≡ k) ⊎ Among k bs

-- From `s` to `t`, exactly the frames of the list became free.
pub record Freed (bs : List ℕ) (s t : Pmm) : Type 0 where
  pub valid : IsValid t
  pub free : (k : ℕ) → Among k bs → mark t k ≡ 0
  pub others : (k : ℕ) → (¬ Among k bs) → mark t k ≡ mark s k
  pub total : t.total_blocks ≡ s.total_blocks

Among-dec : (k : ℕ) (bs : List ℕ) → Among k bs ⊎ (¬ Among k bs)
Among-dec k [] = inr (λ a. a)
Among-dec k (b ∷ bs) = elim (Bool-cases (b == k)) [
  | inl e ↦ inl (inl (eq_of_== b k e))
  | inr ne ↦ elim (Among-dec k bs) [
    | inl a ↦ inl (inr a)
    | inr out ↦ inr (neither (ne_of_== b k ne) out)
  ]
]
  where
    neither : b ≢ k → (¬ Among k bs) → (b ≡ k) ⊎ Among k bs → ⊥
    neither ne out (inl e) = ne e
    neither ne out (inr a) = out a

Freed-cons :
    (b : ℕ) (bs : List ℕ) (s t u : Pmm) → Marked b 0 s t → Freed bs t u → Freed (b ∷ bs) s u
Freed-cons b bs s t u m rest = record {
  valid = rest.valid;
  free = λ k a. elim (Among-dec k bs) [
    | inl a' ↦ rest.free k a'
    | inr out ↦ rest.others k out ∙ first k out a
  ];
  others = λ k out. rest.others k (λ a. out (inr a)) ∙ m.elsewhere k (λ e. out (inl e));
  total = rest.total ∙ m.total;
}
  where
    first : (k : ℕ) → (¬ Among k bs) → (b ≡ k) ⊎ Among k bs → mark t k ≡ 0
    first k out (inl e) = ap (mark t) (sym e) ∙ m.here
    first k out (inr a) = absurd (out a)

tracked_still : (bs : List ℕ) (n n' : ℕ) → n' ≡ n → All (λ b. b < n) bs → All (λ b. b < n') bs
tracked_still [] n n' e h = tt
tracked_still (b ∷ bs) n n' e h = (omega (arith, e, h.0), tracked_still bs n n' e h.1)

free_all-Freed :
    (bs : List ℕ) (s : Pmm)
    → IsValid s
    → All (λ b. b < s.total_blocks) bs
    → Freed bs s (free_all (addresses bs) s)
free_all-Freed [] s v h = record {
  valid = v;
  free = λ k a. absurd a;
  others = λ k out. refl;
  total = refl;
}
free_all-Freed (b ∷ bs) s v h =
    let m = free_block-Marked b s v h.0 in
    Freed-cons b bs s (free_block (b * block_size) s)
      (free_all (addresses bs) (free_block (b * block_size) s)) m
      (free_all-Freed bs (free_block (b * block_size) s) (free_block-IsValid (b * block_size) s v)
        (tracked_still bs s.total_blocks (free_block (b * block_size) s).total_blocks m.total h.1))

-- The state that a failed load returns in.
abbrev pub cleaned : {Files : Type 0} → List ℕ → ℕ → Loader Files → Loader Files
cleaned bs pd w = record w {
  vmm = record (w.vmm) { pmm = free_block (pd * block_size) (free_all (addresses bs) w.vmm.pmm) };
}

-- Under the allocator's invariant, when the directory's frame and the recorded ones are tracked,
-- the clean-up of a failed load returns -1 with exactly those frames free and every other mark as
-- it was, and keeps the invariant.
pub finish-Freed :
    {Files : Type 0} (entry pd : ℕ) (bs : List ℕ) (w : Loader Files)
    → IsValid w.vmm.pmm
    → All (λ b. b < w.vmm.pmm.total_blocks) (pd ∷ bs)
    → (finish entry (pd * block_size) (failed (addresses bs) w) ≡ returned none (cleaned bs pd w))
      × Freed (pd ∷ bs) w.vmm.pmm (cleaned bs pd w).vmm.pmm
finish-Freed entry pd bs w v h = (refl, both)
  where
    rest : Freed bs w.vmm.pmm (free_all (addresses bs) w.vmm.pmm)
    rest = free_all-Freed bs w.vmm.pmm v h.1

    m :
        Marked pd 0
          (free_all (addresses bs) w.vmm.pmm)
          (free_block (pd * block_size) (free_all (addresses bs) w.vmm.pmm))
    m =
        free_block-Marked pd (free_all (addresses bs) w.vmm.pmm) rest.valid
          (omega (arith, rest.total, h.0))

    last :
        (k : ℕ) → (pd ≡ k) ⊎ Among k bs → (pd ≡ k) ⊎ (pd ≢ k) → mark (cleaned bs pd w).vmm.pmm k ≡ 0
    last k a (inl e) = ap (mark (cleaned bs pd w).vmm.pmm) (sym e) ∙ m.here
    last k (inl e) (inr ne) = absurd (ne e)
    last k (inr a) (inr ne) = m.elsewhere k ne ∙ rest.free k a

    either : (k : ℕ) → (pd ≡ k) ⊎ (pd ≢ k)
    either k = elim (Bool-cases (pd == k)) [
      | inl e ↦ inl (eq_of_== pd k e)
      | inr e ↦ inr (ne_of_== pd k e)
    ]

    both : Freed (pd ∷ bs) w.vmm.pmm (cleaned bs pd w).vmm.pmm
    both = record {
      valid = free_block-IsValid (pd * block_size) (free_all (addresses bs) w.vmm.pmm) rest.valid;
      free = λ k a. last k a (either k);
      others = λ k out. m.elsewhere k (λ e. out (inl e)) ∙ rest.others k (λ a. out (inr a));
      total = m.total ∙ rest.total;
    }
