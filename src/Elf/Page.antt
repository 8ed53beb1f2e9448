-- ===== src/Elf/Page.antt =====
-- One page of a segment in src/elf.c, and what several of them come to.
use my_own_operating_system.Base.{
  ℕ, ◌+◌, ◌*◌, ◌^◌, ◌≤◌, ◌<◌, ◌≡◌, refl, sym, ap, ◌∙◌, ◌≢◌, ◌⊎◌, inl, inr, some, arith, ◌==◌,
  Bool-cases, eq_of_==, ne_of_==, ==-of_eq, ==-of_ne, update,
}
use mathlib.Core.Path.{subst}
use my_own_operating_system.Pmm.{block_size}
use my_own_operating_system.Pmm.Bitmap.{mark, mark-set_self}
use my_own_operating_system.Pmm.Block.{mark-lt}
use my_own_operating_system.Pmm.Alloc.{IsFirst}
use my_own_operating_system.Vmm.{Vmm, clear_frame, flag_all, table_of}
use my_own_operating_system.Vmm.Walk.{lookup, bit_and-page_mask}
use my_own_operating_system.Vmm.Frames.{IsPaged}
use my_own_operating_system.Vmm.Scratch.{SameOutside, scratch-IsPaged, scratch-lookup}
use my_own_operating_system.Vmm.Map.{page_of, translation_all, Mapped}
use my_own_operating_system.Vmm.Map.Table.{took-kept, clear_frame-other, clear_frame-lt}
use my_own_operating_system.Vmm.Map.Kept.{Kept}
use my_own_operating_system.Vmm.Fault.{with_taken, taken-lookup}
use my_own_operating_system.Elf.{clear_by, clear_page}

-- From `v` to `w`, page `n` came to be backed by frame `b`, which was free.
pub record OnePage (n b : ℕ) (v w : Vmm) : Type 0 where
  pub here : (a : ℕ) → a < 2 ^ 32 → page_of a ≡ n → lookup w a ≡ some (b * block_size + 7)
  pub elsewhere : (a : ℕ) → a < 2 ^ 32 → page_of a ≢ n → lookup w a ≡ lookup v a
  pub free : mark v.pmm b ≡ 0
  pub used : mark w.pmm b ≡ 1
  pub kept : (k : ℕ) → mark v.pmm k ≡ 1 → mark w.pmm k ≡ 1
  pub paged : IsPaged w
  pub directory : w.directory ≡ v.directory

clear_page-frame :
    (vaddr b : ℕ) (v : Vmm)
    → b < 2 ^ 20
    → lookup v vaddr ≡ some (b * block_size + 7)
    → clear_page vaddr v ≡ record v { ram = clear_frame (b * block_size) v.ram }
unfolding clear_page
clear_page-frame vaddr b v small e =
    let mask : table_of (b * block_size + 7) ≡ b * block_size =
      omega (arith, bit_and-page_mask (b * block_size + 7) (omega (arith, small))) in
    ap (clear_by vaddr v) e ∙ ap (λ f. record v { ram = clear_frame f v.ram }) mask

module _ (n b : ℕ) (v w : Vmm) (paged : IsPaged v) (small : n < 2 ^ 20) (first : IsFirst v.pmm b)
    (m : Mapped (n * block_size) (b * block_size + flag_all) (with_taken b v) w)
    (k : Kept b (with_taken b v) w) where
  abbrev cleared : Vmm
  cleared = record w { ram = clear_frame (b * block_size) w.ram }

  cleared-SameOutside : SameOutside b w cleared
  cleared-SameOutside = record {
    same = λ a ne. clear_frame-other b w.ram a ne;
    words = λ a. clear_frame-lt (b * block_size) w.ram a (m.paged.words a);
    directory = refl;
  }

  cleared-OnePage : OnePage n b v cleared
  cleared-OnePage = record {
    here = λ a h same.
        scratch-lookup b w cleared m.paged k.scratch cleared-SameOutside a h
        ∙ m.here a h (omega (arith, same))
        ∙ translation_all b;
    elsewhere = λ a h other.
        scratch-lookup b w cleared m.paged k.scratch cleared-SameOutside a h
        ∙ m.elsewhere a h (λ e. absurd (omega (arith, other, e)))
        ∙ taken-lookup v paged b first a h;
    free = first.free;
    used = k.marks b (mark-set_self v.pmm b);
    kept = λ j h. k.marks j (took-kept v.pmm b j h);
    paged =
        scratch-IsPaged b w cleared m.paged k.scratch cleared-SameOutside m.paged.valid (λ j h. h);
    directory = m.directory;
  }

  pub page-OnePage : OnePage n b v (clear_page (n * block_size) w)
  page-OnePage =
      subst (OnePage n b v)
        (sym (
          clear_page-frame (n * block_size) b w (omega (arith, first.inside, paged.valid.small))
            (m.here (n * block_size) (omega (arith, small)) refl ∙ translation_all b)))
        cleared-OnePage

-- From `v` to `w`, each page from `n` up to `count` came to be backed by a frame of its own, which
-- was free, and no other page changed.
pub record IsFilled (n count : ℕ) (v w : Vmm) : Type 0 where
  pub frames : ℕ → ℕ
  pub here :
      (a : ℕ)
      → n * block_size ≤ a
      → a < count * block_size
      → lookup w a ≡ some (frames (page_of a) * block_size + 7)
  pub elsewhere :
      (a : ℕ)
      → a < 2 ^ 32
      → (a < n * block_size) ⊎ (count * block_size ≤ a)
      → lookup w a ≡ lookup v a
  pub free : (k : ℕ) → n ≤ k → k < count → mark v.pmm (frames k) ≡ 0
  pub used : (k : ℕ) → n ≤ k → k < count → mark w.pmm (frames k) ≡ 1
  pub apart : (j k : ℕ) → n ≤ j → j < k → k < count → frames j ≢ frames k
  pub kept : (k : ℕ) → mark v.pmm k ≡ 1 → mark w.pmm k ≡ 1
  pub paged : IsPaged w
  pub directory : w.directory ≡ v.directory

pub IsFilled-none : (n : ℕ) (v : Vmm) → IsPaged v → IsFilled n n v v
IsFilled-none n v paged = record {
  frames = λ k. 0;
  here = λ a lo hi. absurd (omega (arith, lo, hi));
  elsewhere = λ a h out. refl;
  free = λ k lo hi. absurd (omega (arith, lo, hi));
  used = λ k lo hi. absurd (omega (arith, lo, hi));
  apart = λ j k lo lt hi. absurd (omega (arith, lo, lt, hi));
  kept = λ k h. h;
  paged = paged;
  directory = refl;
}

module _ (n b count : ℕ) (v u w : Vmm) (one : OnePage n b v u) (rest : IsFilled (n + 1) count u w)
    (less : n < count) (small : count < 2 ^ 20) where
  abbrev frames_of : ℕ → ℕ
  frames_of = update rest.frames n b

  at_first : frames_of n ≡ b
  at_first = rw (==-of_eq n n refl) refl

  at_later : (k : ℕ) → n + 1 ≤ k → frames_of k ≡ rest.frames k
  at_later k h = rw (==-of_ne k n (λ e. absurd (omega (arith, h, e)))) refl

  pub IsFilled-one : IsFilled n count v w
  IsFilled-one = record {
    frames = frames_of;
    here = λ a lo hi. elim (Bool-cases (page_of a == n)) [
      | inl same ↦
          let e : page_of a ≡ n = eq_of_== _ _ same in
          rest.elsewhere a (omega (arith, hi, small)) (inl (omega (arith, e)))
          ∙ one.here a (omega (arith, hi, small)) e
          ∙ ap (λ f. some (f * block_size + 7)) (sym (ap frames_of e ∙ at_first))
      | inr other ↦
          let later : n + 1 ≤ page_of a = omega (arith, ne_of_== _ _ other, lo) in
          rest.here a (omega (arith, later)) hi
          ∙ ap (λ f. some (f * block_size + 7)) (sym (at_later (page_of a) later))
    ];
    elsewhere = λ a h out.
        rest.elsewhere a h (ground (arith, out))
        ∙ one.elsewhere a h (λ e. absurd (ground (arith, out, e, less)));
    free = λ k lo hi. elim (Bool-cases (k == n)) [
      | inl same ↦ rw (ap frames_of (eq_of_== _ _ same) ∙ at_first) one.free
      | inr other ↦
          let later : n + 1 ≤ k = omega (arith, ne_of_== _ _ other, lo) in
          rw (at_later k later) (free_before (rest.frames k) (rest.free k later hi))
    ];
    used = λ k lo hi. elim (Bool-cases (k == n)) [
      | inl same ↦ rw (ap frames_of (eq_of_== _ _ same) ∙ at_first) (rest.kept b one.used)
      | inr other ↦
          let later : n + 1 ≤ k = omega (arith, ne_of_== _ _ other, lo) in
          rw (at_later k later) (rest.used k later hi)
    ];
    apart = λ j k lo lt hi. elim (Bool-cases (j == n)) [
      | inl same ↦
          let later : n + 1 ≤ k = omega (arith, eq_of_== _ _ same, lt) in
          λ e.
            not_free (rest.frames k)
              (sym (at_later k later) ∙ sym e ∙ ap frames_of (eq_of_== _ _ same) ∙ at_first)
              (rest.free k later hi)
      | inr other ↦
          let later : n + 1 ≤ j = omega (arith, ne_of_== _ _ other, lo) in
          λ e.
            rest.apart j k later lt hi
              (sym (at_later j later) ∙ e ∙ at_later k (omega (arith, later, lt)))
    ];
    kept = λ k h. rest.kept k (one.kept k h);
    paged = rest.paged;
    directory = rest.directory ∙ one.directory;
  }
    where
      free_before : (f : ℕ) → mark u.pmm f ≡ 0 → mark v.pmm f ≡ 0
      free_before f z = elim (Bool-cases (mark v.pmm f == 1)) [
        | inl used ↦ absurd (omega (arith, z, one.kept f (eq_of_== _ _ used)))
        | inr free ↦ omega (arith, ne_of_== _ _ free, mark-lt v.pmm f)
      ]

      not_free : (f : ℕ) → f ≡ b → mark u.pmm f ≡ 0 → ⊥
      not_free f e z = absurd (omega (arith, z, one.used, ap (mark u.pmm) e))
