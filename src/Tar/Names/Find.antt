-- ===== src/Tar/Names/Find.antt =====
-- `match_name` and `tar_finddir` of src/tar.c find the entry of a name.
use my_own_operating_system.Base.{
  ℕ, ◌+◌, ◌-◌, ◌≡◌, refl, sym, ap, ap₂, ◌∙◌, ◌≢◌, inl, inr, Bool, true, false, Option, none, some,
  List, [], ◌∷◌, ◌++◌, arith, ◌==◌, if◌then◌else◌, Bool-cases, eq_of_==, ==-of_eq, ==-of_ne, length,
}
use mathlib.Core.Path.{subst}
use my_own_operating_system.Tar.Names.{
  strcmp_zero, strncmp_zero, skip, is_direct_child, ends_with_slash, name_length, match_name,
  is_match, tar_finddir,
}
use my_own_operating_system.Tar.Names.Child.{
  IsComponent, empty, slash, letter, is_direct_child-IsChild, strcmp_zero_sound, prefix_complete,
}

-- A component without its trailing slash.
abbrev pub stem : List ℕ → List ℕ
stem [] = []
stem (c ∷ cs) = if c == 47 then [] else c ∷ stem cs

name_length-cons : (c d : ℕ) (cs : List ℕ) → name_length (c ∷ d ∷ cs) ≡ name_length (d ∷ cs) + 1
unfolding name_length
name_length-cons c d cs = go (ends_with_slash (d ∷ cs))
  where
    go :
        (b : Bool)
        → (if b then length (c ∷ d ∷ cs) - 1 else length (c ∷ d ∷ cs))
          ≡ (if b then length (d ∷ cs) - 1 else length (d ∷ cs)) + 1
    go true = omega arith
    go false = omega arith

name_length-letter :
    (c : ℕ) (cs : List ℕ)
    → c ≢ 47
    → name_length cs ≡ length (stem cs)
    → name_length (c ∷ cs) ≡ length (stem (c ∷ cs))
unfolding name_length
name_length-letter c [] ne e = rw (==-of_ne c 47 ne)
name_length-letter c (d ∷ cs) ne e =
    name_length-cons c d cs ∙ rw (==-of_ne c 47 ne) (omega (arith, e))

pub name_length-stem : {rel : List ℕ} → IsComponent rel → name_length rel ≡ length (stem rel)
unfolding name_length
name_length-stem empty = refl
name_length-stem slash = refl
name_length-stem (letter {c} {cs} ne rest) = name_length-letter c cs ne (name_length-stem rest)

strncmp-stem :
    {rel : List ℕ} (s : List ℕ)
    → IsComponent rel
    → length (stem rel) ≡ length s
    → strncmp_zero (length (stem rel)) rel s ≡ true
    → stem rel ≡ s
unfolding strncmp_zero
strncmp-stem [] empty len t = refl
strncmp-stem [] slash len t = refl
strncmp-stem [] (letter {c} {cs} ne rest) len t =
    absurd (omega (arith, rw (==-of_ne c 47 ne) at len))
strncmp-stem (y ∷ ys) empty len t = absurd (omega (arith, len))
strncmp-stem (y ∷ ys) slash len t = absurd (omega (arith, len))
strncmp-stem (y ∷ ys) (letter {c} {cs} ne rest) len t =
    rw (==-of_ne c 47 ne) (elim (Bool-cases (c == y)) [
      | inl e ↦
          ap₂ (λ (z : ℕ) (zs : List ℕ). z ∷ zs) (eq_of_== c y e)
            (strncmp-stem ys rest (omega (arith, rw (==-of_ne c 47 ne) at len))
              (rw (==-of_ne c 47 ne, e) at t))
      | inr e ↦ cc (rw (==-of_ne c 47 ne, e) at t)
    ])

stem-strncmp :
    {rel : List ℕ} → IsComponent rel → strncmp_zero (length (stem rel)) rel (stem rel) ≡ true
unfolding strncmp_zero
stem-strncmp empty = refl
stem-strncmp slash = refl
stem-strncmp (letter {c} {cs} ne rest) =
    rw (==-of_ne c 47 ne, ==-of_eq c c refl) (stem-strncmp rest)

match_name_sound :
    (rel search : List ℕ) → IsComponent rel → match_name rel search ≡ true → stem rel ≡ search
unfolding match_name
match_name_sound rel search comp t = elim (Bool-cases (name_length rel == length search)) [
  | inl e ↦
      let same = name_length-stem comp in
      strncmp-stem search comp (sym same ∙ eq_of_== _ _ e)
        (subst (λ n. strncmp_zero n rel search ≡ true) same (rw e at t))
  | inr e ↦ cc (rw e at t)
]

pub match_name_complete : (rel : List ℕ) → IsComponent rel → match_name rel (stem rel) ≡ true
unfolding match_name
match_name_complete rel comp =
    rw (name_length-stem comp, ==-of_eq (length (stem rel)) (length (stem rel)) refl)
      (stem-strncmp comp)

-- The name of a directory as a path that entries continue: none, which is the root's, or one with a
-- slash at its end.
pub data IsDirectory : List ℕ → Type 0 where
  top : IsDirectory []
  slashed : (d : List ℕ) → d ≢ [] → IsDirectory (d ++ (47 ∷ []))

-- The entry's path is the directory's, with its slash, and one component of the name.
pub record IsNamed (dir search entry : List ℕ) : Type 0 where
  pub directory : IsDirectory dir
  pub other : entry ≢ dir
  pub rel : List ℕ
  pub split : entry ≡ dir ++ rel
  pub component : IsComponent rel
  pub name : stem rel ≡ search

not_one_slash : {dir : List ℕ} → IsDirectory dir → dir ≢ 47 ∷ []
not_one_slash top = λ z. cc
not_one_slash (slashed [] some') = λ z. some' refl
not_one_slash (slashed (c ∷ []) some') = λ z. cc
not_one_slash (slashed (c ∷ d ∷ cs) some') = λ z. cc

strcmp_zero_self : (a : List ℕ) → strcmp_zero a a ≡ true
unfolding strcmp_zero
strcmp_zero_self [] = refl
strcmp_zero_self (x ∷ xs) = rw (==-of_eq x x refl) (strcmp_zero_self xs)

strcmp_zero_ne : (a b : List ℕ) → a ≢ b → strcmp_zero a b ≡ false
strcmp_zero_ne a b ne = elim (Bool-cases (strcmp_zero a b)) [
  | inl e ↦ absurd (ne (strcmp_zero_sound a b e))
  | inr e ↦ e
]

pub is_match_complete :
    (dir search entry : List ℕ) → IsNamed dir search entry → is_match dir search entry ≡ true
unfolding is_match
is_match_complete dir search entry named =
    let ne = not_one_slash named.directory in
    rw
      (
        strcmp_zero_ne entry dir named.other,
        (is_direct_child-IsChild dir entry ne).1 (named.rel, named.split, named.component),
      )
      (subst (λ l. match_name l search ≡ true) (sym rest)
        (subst (λ l. match_name named.rel l ≡ true) named.name
          (match_name_complete named.rel named.component)))
  where
    rest : skip (length dir) entry ≡ named.rel
    rest = ap (skip (length dir)) named.split ∙ (prefix_complete dir named.rel).1

pub is_match_sound :
    (dir search entry : List ℕ)
    → IsDirectory dir
    → is_match dir search entry ≡ true
    → IsNamed dir search entry
unfolding is_match
is_match_sound dir search entry directory t = elim (Bool-cases (strcmp_zero entry dir)) [
  | inl e ↦ cc (rw e at t)
  | inr e ↦ elim (Bool-cases (is_direct_child dir entry)) [
    | inr f ↦ cc (rw (e, f) at t)
    | inl f ↦
        let (rel, split, comp) =
          (is_direct_child-IsChild dir entry (not_one_slash directory)).0 f in
        let rest : skip (length dir) entry ≡ rel =
          ap (skip (length dir)) split ∙ (prefix_complete dir rel).1 in
        record {
          directory = directory;
          other = λ same. absurd (
              true_false (sym (strcmp_zero_self dir) ∙ ap (λ l. strcmp_zero l dir) (sym same) ∙ e));
          rel = rel;
          split = split;
          component = comp;
          name =
              match_name_sound rel search comp
                (subst (λ l. match_name l search ≡ true) rest (rw (e, f) at t));
        }
  ]
]
  where
    true_false : true ≡ false → ⊥
    true_false h = cc

-- None of the entries has the name.
abbrev pub NoneNamed : List ℕ → List ℕ → List (List ℕ) → Type 0
NoneNamed dir search [] = Unit
NoneNamed dir search (e ∷ es) = (¬ IsNamed dir search e) × NoneNamed dir search es

-- Where the search from index `i` ends: at the first entry of the name, or without one.
pub data Located (dir search : List ℕ) (i : ℕ) (entries : List (List ℕ)) : Option ℕ → Type 0 where
  located :
      (before : List (List ℕ)) (entry : List ℕ) (after : List (List ℕ)) (j : ℕ)
      → entries ≡ before ++ (entry ∷ after)
      → NoneNamed dir search before
      → IsNamed dir search entry
      → j ≡ i + length before
      → Located dir search i entries (some j)
  missing : NoneNamed dir search entries → Located dir search i entries none

Located-cons :
    (dir search : List ℕ) (i : ℕ) (e : List ℕ) (es : List (List ℕ)) (r : Option ℕ)
    → (¬ IsNamed dir search e)
    → Located dir search (i + 1) es r
    → Located dir search i (e ∷ es) r
Located-cons dir search i e es _ not' (located before entry after j split before' named at) =
    located (e ∷ before) entry after j (ap (λ l. e ∷ l) split) (not', before') named
      (omega (arith, at))
Located-cons dir search i e es _ not' (missing all) = missing (not', all)

-- For the root or a directory whose name ends in a slash, `tar_finddir` returns the index of the
-- first entry, from index `i` on, that is not the directory and whose name is the directory's
-- followed by one component that is the name sought but for a trailing slash, or NULL if no entry
-- is such.
pub tar_finddir-Located :
    (dir search : List ℕ) (i : ℕ) (entries : List (List ℕ))
    → IsDirectory dir
    → Located dir search i entries (tar_finddir dir search i entries)
unfolding tar_finddir
tar_finddir-Located dir search i [] directory = missing tt
tar_finddir-Located dir search i (e ∷ es) directory = elim (Bool-cases (is_match dir search e)) [
  | inl yes' ↦
      rw yes' (located [] e es i refl tt (is_match_sound dir search e directory yes') (omega arith))
  | inr no' ↦ rw no' (
      Located-cons dir search i e es (tar_finddir dir search (i + 1) es)
        (λ named. absurd (false_true (sym no' ∙ is_match_complete dir search e named)))
        (tar_finddir-Located dir search (i + 1) es directory))
]
  where
    false_true : false ≡ true → ⊥
    false_true h = cc
