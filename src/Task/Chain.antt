-- ===== src/Task/Chain.antt =====
-- The task list of src/task.c as a chain of `next` pointers through the table.
use my_own_operating_system.Base.{
  ℕ, ◌+◌, ◌≡◌, refl, sym, ap, ◌≢◌, Option, none, some, List, [], ◌∷◌, ◌++◌, arith, ==-of_ne, length,
  update,
}
use mathlib.Core.Path.{subst}
use my_own_operating_system.Task.{Task}

-- From `p` the pointers lead through `xs` to NULL.
pub data Chain (table : ℕ → Task) : Option ℕ → List ℕ → Type 0 where
  nil : Chain table none []
  cons : {i : ℕ} {xs : List ℕ} → Chain table (table i).next xs → Chain table (some i) (i ∷ xs)

-- `c` is none of the list.
abbrev pub Avoids : ℕ → List ℕ → Type 0
Avoids c [] = Unit
Avoids c (x ∷ xs) = (x ≢ c) × Avoids c xs

-- No member of the list stands in it twice.
abbrev pub Distinct : List ℕ → Type 0
Distinct [] = Unit
Distinct (x ∷ xs) = Avoids x xs × Distinct xs

pub Avoids-append : (c : ℕ) (xs ys : List ℕ) → Avoids c xs → Avoids c ys → Avoids c (xs ++ ys)
Avoids-append c [] ys h k = k
Avoids-append c (x ∷ xs) ys h k = (h.0, Avoids-append c xs ys h.1 k)

pub Avoids-left : (c : ℕ) (xs ys : List ℕ) → Avoids c (xs ++ ys) → Avoids c xs
Avoids-left c [] ys h = tt
Avoids-left c (x ∷ xs) ys h = (h.0, Avoids-left c xs ys h.1)

pub Avoids-right : (c : ℕ) (xs ys : List ℕ) → Avoids c (xs ++ ys) → Avoids c ys
Avoids-right c [] ys h = h
Avoids-right c (x ∷ xs) ys h = Avoids-right c xs ys h.1

-- The member in the middle of a list without repetition is in neither part.
pub Distinct-middle :
    (xs : List ℕ) (c : ℕ) (ys : List ℕ) → Distinct (xs ++ (c ∷ ys)) → Avoids c xs × Avoids c ys
Distinct-middle [] c ys d = (tt, d.0)
Distinct-middle (x ∷ xs) c ys d =
    let rest = Distinct-middle xs c ys d.1 in
    ((λ e. (Avoids-right x xs (c ∷ ys) d.0).0 (sym e), rest.0), rest.1)

pub length-append : (xs ys : List ℕ) → length (xs ++ ys) ≡ length xs + length ys
length-append [] ys = omega arith
length-append (x ∷ xs) ys = omega (arith, length-append xs ys)

-- A table with the same pointers along the chain has the same chain.
pub Chain-same :
    (t u : ℕ → Task) {p : Option ℕ} {xs : List ℕ}
    → ((i : ℕ) → (u i).next ≡ (t i).next)
    → Chain t p xs
    → Chain u p xs
Chain-same t u same nil = nil
Chain-same t u same (cons {i} {xs} c) =
    cons (subst (λ q. Chain u q xs) (sym (same i)) (Chain-same t u same c))

-- A chain that avoids `c` does not see a change of slot `c`.
pub Chain-update :
    (t : ℕ → Task) (c : ℕ) (new : Task) {p : Option ℕ} {xs : List ℕ}
    → Chain t p xs
    → Avoids c xs
    → Chain (update t c new) p xs
Chain-update t c new nil h = nil
Chain-update t c new (cons {i} {xs} rest) h =
    let same : update t c new i ≡ t i = rw (==-of_ne i c h.0) in
    cons (
      subst (λ q. Chain (update t c new) q xs) (sym (ap (λ (x : Task). x.next) same))
        (Chain-update t c new rest h.1))

-- The head of a chain and what follows it.
pub Chain-head :
    {table : ℕ → Task} {p : Option ℕ} {x : ℕ} {xs : List ℕ}
    → Chain table p (x ∷ xs)
    → (p ≡ some x) × Chain table (table x).next xs
Chain-head (cons rest) = (refl, rest)

pub Chain-end : {table : ℕ → Task} {p : Option ℕ} → Chain table p [] → p ≡ none
Chain-end nil = refl

-- A chain from the middle of a chain.
pub Chain-drop :
    (table : ℕ → Task) {p : Option ℕ} (xs : List ℕ) {c : ℕ} {ys : List ℕ}
    → Chain table p (xs ++ (c ∷ ys))
    → Chain table (table c).next ys
Chain-drop table [] c = (Chain-head c).1
Chain-drop table (x ∷ xs) c = Chain-drop table xs (Chain-head c).1
