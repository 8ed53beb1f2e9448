-- ===== src/Tar/Names/Child.antt =====
-- `is_direct_child` of src/tar.c against what it means to stand in a directory.
use my_own_operating_system.Base.{
  ℕ, ◌≡◌, refl, sym, ap, ap₂, ◌∙◌, ◌≢◌, ◌↔◌, inl, inr, Bool, true, false, List, [], ◌∷◌, ◌++◌,
  arith, ◌==◌, if◌then◌else◌, Bool-cases, eq_of_==, ne_of_==, ==-of_eq, ==-of_ne, length,
}
use my_own_operating_system.Tar.Names.{
  strcmp_zero, strncmp_zero, skip, one_component, is_direct_child,
}

-- A name without a slash, or with one at its end.
pub data IsComponent : List ℕ → Type 0 where
  empty : IsComponent []
  slash : IsComponent (47 ∷ [])
  letter : {c : ℕ} {cs : List ℕ} → c ≢ 47 → IsComponent cs → IsComponent (c ∷ cs)

one_component_sound : (cs : List ℕ) → one_component cs ≡ true → IsComponent cs
unfolding one_component
one_component_sound [] h = empty
one_component_sound (c ∷ []) h = elim (Bool-cases (c == 47)) [
  | inl e ↦ rw (eq_of_== c 47 e) slash
  | inr e ↦ letter (ne_of_== c 47 e) empty
]
one_component_sound (c ∷ d ∷ cs) h = elim (Bool-cases (c == 47)) [
  | inl e ↦ cc (rw e at h)
  | inr e ↦ letter (ne_of_== c 47 e) (one_component_sound (d ∷ cs) (rw e at h))
]

one_component_complete : {cs : List ℕ} → IsComponent cs → one_component cs ≡ true
unfolding one_component
one_component_complete empty = refl
one_component_complete slash = refl
one_component_complete (letter {c} {cs} ne rest) =
    rw (==-of_ne c 47 ne) (one_component_complete rest)

pub prefix_sound :
    (dir child : List ℕ)
    → strncmp_zero (length dir) dir child ≡ true
    → child ≡ dir ++ skip (length dir) child
unfolding strncmp_zero
prefix_sound [] child h = refl
prefix_sound (x ∷ xs) [] h = cc
prefix_sound (x ∷ xs) (y ∷ ys) h = elim (Bool-cases (x == y)) [
  | inl e ↦ rw (eq_of_== x y e) (ap (λ l. y ∷ l) (prefix_sound xs ys (rw e at h)))
  | inr e ↦ cc (rw e at h)
]

pub prefix_complete :
    (dir rel : List ℕ)
    → (strncmp_zero (length dir) dir (dir ++ rel) ≡ true) × (skip (length dir) (dir ++ rel) ≡ rel)
unfolding strncmp_zero
prefix_complete [] rel = (refl, refl)
prefix_complete (x ∷ xs) rel =
    let rest = prefix_complete xs rel in (rw (==-of_eq x x refl) rest.0, rest.1)

pub strcmp_zero_sound : (a b : List ℕ) → strcmp_zero a b ≡ true → a ≡ b
unfolding strcmp_zero
strcmp_zero_sound [] [] h = refl
strcmp_zero_sound [] (y ∷ ys) h = cc
strcmp_zero_sound (x ∷ xs) [] h = cc
strcmp_zero_sound (x ∷ xs) (y ∷ ys) h = elim (Bool-cases (x == y)) [
  | inl e ↦ ap₂ (λ z zs. z ∷ zs) (eq_of_== x y e) (strcmp_zero_sound xs ys (rw e at h))
  | inr e ↦ cc (rw e at h)
]

-- The entry is the directory's name followed by one component.
abbrev pub IsChild : List ℕ → List ℕ → Type 0
IsChild dir child = (rel : List ℕ) × (child ≡ dir ++ rel) × IsComponent rel

not_root : (dir : List ℕ) → dir ≢ 47 ∷ [] → strcmp_zero dir (47 ∷ []) ≡ false
not_root dir ne = elim (Bool-cases (strcmp_zero dir (47 ∷ []))) [
  | inl e ↦ absurd (ne (strcmp_zero_sound dir (47 ∷ []) e))
  | inr e ↦ e
]

is_direct_child_cons :
    (d : ℕ) (ds child : List ℕ)
    → d ∷ ds ≢ 47 ∷ []
    → is_direct_child (d ∷ ds) child ≡ (
        if strncmp_zero (length (d ∷ ds)) (d ∷ ds) child
        then one_component (skip (length (d ∷ ds)) child)
        else false)
unfolding is_direct_child
is_direct_child_cons d ds child ne =
    rw (not_root (d ∷ ds) ne, ==-of_ne (length (d ∷ ds)) 0 (λ z. absurd (omega (arith, z)))) refl

is_direct_child_sound :
    (dir child : List ℕ) → dir ≢ 47 ∷ [] → is_direct_child dir child ≡ true → IsChild dir child
unfolding is_direct_child
is_direct_child_sound [] child ne h = (child, refl, one_component_sound child h)
is_direct_child_sound (d ∷ ds) child ne h =
    go (strncmp_zero (length (d ∷ ds)) (d ∷ ds) child) refl
      (sym (is_direct_child_cons d ds child ne) ∙ h)
  where
    go :
        (b : Bool)
        → strncmp_zero (length (d ∷ ds)) (d ∷ ds) child ≡ b
        → (if b then one_component (skip (length (d ∷ ds)) child) else false) ≡ true
        → IsChild (d ∷ ds) child
    go true e t = (
      skip (length (d ∷ ds)) child,
      prefix_sound (d ∷ ds) child e,
      one_component_sound (skip (length (d ∷ ds)) child) t,
    )
    go false e t = cc

is_direct_child_complete :
    (dir rel : List ℕ) → dir ≢ 47 ∷ [] → IsComponent rel → is_direct_child dir (dir ++ rel) ≡ true
unfolding is_direct_child
is_direct_child_complete [] rel ne comp = one_component_complete comp
is_direct_child_complete (d ∷ ds) rel ne comp =
    let p = prefix_complete (d ∷ ds) rel in
    is_direct_child_cons d ds ((d ∷ ds) ++ rel) ne
    ∙ ap₂ (λ b (l : List ℕ). if b then one_component l else false) p.0 p.1
    ∙ one_component_complete comp

-- For a directory other than the string of one slash, `is_direct_child` holds exactly of the
-- entries that are the directory's name followed by one component, which may end with a slash.
pub is_direct_child-IsChild :
    (dir child : List ℕ) → dir ≢ 47 ∷ [] → (is_direct_child dir child ≡ true) ↔ IsChild dir child
is_direct_child-IsChild dir child ne = (
  is_direct_child_sound dir child ne,
  λ (rel, e, comp). ap (is_direct_child dir) e ∙ is_direct_child_complete dir rel ne comp,
)
