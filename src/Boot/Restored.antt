-- ===== src/Boot/Restored.antt =====
-- The marks of three frames that the self-test of src/kernel.c takes and gives back.
use my_own_operating_system.Base.{
  ℕ, ◌≡◌, sym, ap, ◌∙◌, ◌≢◌, inl, inr, ◌==◌, Bool-cases, eq_of_==, ne_of_==,
}
use my_own_operating_system.Pmm.{Pmm}
use my_own_operating_system.Pmm.Bitmap.{mark}
use my_own_operating_system.Pmm.Block.{Marked}

-- Three frames that are taken and given back again.
pub marks_restored :
    (i j k : ℕ) (s a b t u v w : Pmm)
    → i ≢ j
    → i ≢ k
    → j ≢ k
    → mark s i ≡ 0
    → mark s j ≡ 0
    → mark s k ≡ 0
    → Marked i 1 s a
    → Marked j 1 a b
    → Marked k 1 b t
    → Marked i 0 t u
    → Marked j 0 u v
    → Marked k 0 v w
    → (x : ℕ) → mark w x ≡ mark s x
marks_restored i j k s a b t u v w ij ik jk fi fj fk ma mb mt mu mv mw x =
    elim (Bool-cases (k == x)) [
      | inl at_k ↦
          let e : k ≡ x = eq_of_== k x at_k in
          ap (mark w) (sym e) ∙ mw.here ∙ sym fk ∙ ap (mark s) e
      | inr off_k ↦ mw.elsewhere x (ne_of_== k x off_k) ∙ elim (Bool-cases (j == x)) [
        | inl at_j ↦
            let e : j ≡ x = eq_of_== j x at_j in
            ap (mark v) (sym e) ∙ mv.here ∙ sym fj ∙ ap (mark s) e
        | inr off_j ↦ mv.elsewhere x (ne_of_== j x off_j) ∙ elim (Bool-cases (i == x)) [
          | inl at_i ↦
              let e : i ≡ x = eq_of_== i x at_i in
              ap (mark u) (sym e) ∙ mu.here ∙ sym fi ∙ ap (mark s) e
          | inr off_i ↦
              mu.elsewhere x (ne_of_== i x off_i)
              ∙ mt.elsewhere x (ne_of_== k x off_k)
              ∙ mb.elsewhere x (ne_of_== j x off_j)
              ∙ ma.elsewhere x (ne_of_== i x off_i)
        ]
      ]
    ]
