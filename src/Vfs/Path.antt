-- ===== src/Vfs/Path.antt =====
-- `find_node_by_path` of src/vfs.c against the lookup of a path component by component.
use my_own_operating_system.Base.{
  ℕ, zero, suc, ◌-◌, ◌≤◌, ◌≡◌, refl, sym, ap, ◌∙◌, inl, inr, Option, none, some, List, [], ◌∷◌,
  arith, ◌==◌, if◌then◌else◌, Bool-cases, ==-of_ne, length,
}
use my_own_operating_system.Base.{take}
use my_own_operating_system.Vfs.{
  Driver, read_token, skip_slash, finddir_fs, enter, descend, walk, find_node_by_path,
}

abbrev pub with_first : ℕ → List (List ℕ) → List (List ℕ)
with_first c [] = (c ∷ []) ∷ []
with_first c (t ∷ ts) = (c ∷ t) ∷ ts

-- The path cut at each slash.
abbrev pub segments : List ℕ → List (List ℕ)
segments [] = [] ∷ []
segments (c ∷ cs) = if c == 47 then [] ∷ segments cs else with_first c (segments cs)

abbrev pub drop_empty : List (List ℕ) → List (List ℕ)
drop_empty [] = []
drop_empty ([] ∷ ts) = drop_empty ts
drop_empty ((c ∷ cs) ∷ ts) = (c ∷ cs) ∷ drop_empty ts

-- The components of a path: what stands between its slashes, if anything does.
abbrev pub components : List ℕ → List (List ℕ)
components path = drop_empty (segments path)

leading : List ℕ → List ℕ
leading [] = []
leading (c ∷ cs) = if c == 47 then [] else c ∷ leading cs

behind : List ℕ → List (List ℕ)
behind [] = []
behind (c ∷ cs) = segments cs

take-cons :
    (n c : ℕ) (l r : List ℕ) → r ≡ take (n - 1) l → (if n == 0 then [] else c ∷ r) ≡ take n (c ∷ l)
take-cons zero c l r e = refl
take-cons (suc n) c l r e =
    rw (==-of_ne (suc n) 0 (λ z. absurd (omega (arith, z))))
      (ap (λ x. c ∷ x) (e ∙ ap (λ k. take k l) (omega arith)))

read_token-take : (room : ℕ) (cs : List ℕ) → (read_token room cs).0 ≡ take room (leading cs)
unfolding read_token leading
read_token-take room [] = refl
read_token-take room (c ∷ cs) = elim (Bool-cases (c == 47)) [
  | inl e ↦ rw e refl
  | inr e ↦
      rw e
        (take-cons room c (leading cs) (read_token (room - 1) cs).0 (read_token-take (room - 1) cs))
]

segments-read_token :
    (room : ℕ) (cs : List ℕ) → segments cs ≡ leading cs ∷ behind (read_token room cs).1
unfolding read_token leading behind
segments-read_token room [] = refl
segments-read_token room (c ∷ cs) = elim (Bool-cases (c == 47)) [
  | inl e ↦ rw e refl
  | inr e ↦ rw e (ap (with_first c) (segments-read_token (room - 1) cs))
]

behind-components :
    (room : ℕ) (cs : List ℕ)
    → drop_empty (behind (read_token room cs).1) ≡ components (skip_slash (read_token room cs).1)
unfolding read_token behind
behind-components room [] = refl
behind-components room (c ∷ cs) = elim (Bool-cases (c == 47)) [
  | inl e ↦ rw (e, e) refl
  | inr e ↦ rw e (behind-components (room - 1) cs)
]

skip_slash-length : (cs : List ℕ) → length (skip_slash cs) ≤ length cs
skip_slash-length [] = omega arith
skip_slash-length (c ∷ cs) = elim (Bool-cases (c == 47)) [
  | inl e ↦ rw e (omega arith)
  | inr e ↦ rw e (omega arith)
]

read_token-length : (room : ℕ) (cs : List ℕ) → length (read_token room cs).1 ≤ length cs
unfolding read_token
read_token-length room [] = omega arith
read_token-length room (c ∷ cs) = elim (Bool-cases (c == 47)) [
  | inl e ↦ rw e (omega arith)
  | inr e ↦ rw e (omega (arith, read_token-length (room - 1) cs))
]

-- Each round takes a character at least.
round-length :
    (room c : ℕ) (cs : List ℕ) → length (skip_slash (read_token room (c ∷ cs)).1) ≤ length cs
unfolding read_token
round-length room c cs = elim (Bool-cases (c == 47)) [
  | inl e ↦ rw (e, e) (omega arith)
  | inr e ↦ rw e (
      omega
        (arith, read_token-length (room - 1) cs, skip_slash-length (read_token (room - 1) cs).1))
]

module _ {World Ref Fn : Type 0} (d : Driver World Ref Fn) (w : World) where
  -- From a node, one component after the other, each cut to the 127 characters of the token.
  abbrev pub resolve : Option Ref → List (List ℕ) → Option Ref
  resolve curr [] = curr
  resolve curr (t ∷ ts) = resolve (finddir_fs d curr (take 127 t) w) ts

  resolve-none : (ts : List (List ℕ)) → resolve none ts ≡ none
  unfolding finddir_fs
  resolve-none [] = refl
  resolve-none (t ∷ ts) = resolve-none ts

  enter-resolve :
      (next : Option Ref) (go : Option Ref → Option Ref) (ts : List (List ℕ))
      → ((n : Option Ref) → go n ≡ resolve n ts)
      → enter d next go ≡ resolve next ts
  enter-resolve none go ts same = sym (resolve-none ts)
  enter-resolve (some next) go ts same = same (some next)

  descend-resolve :
      (curr : Option Ref) (go : Option Ref → Option Ref) (t : List ℕ) (ts : List (List ℕ))
      → ((n : Option Ref) → go n ≡ resolve n (drop_empty ts))
      → descend d curr (take 127 t) w go ≡ resolve curr (drop_empty (t ∷ ts))
  descend-resolve curr go [] ts same = same curr
  descend-resolve curr go (c ∷ cs) ts same =
      enter-resolve (finddir_fs d curr (take 127 (c ∷ cs)) w) go (drop_empty ts) same

  walk-resolve :
      (fuel : ℕ) (curr : Option Ref) (path : List ℕ)
      → length path ≤ fuel
      → walk d fuel curr path w ≡ resolve curr (components path)
  unfolding walk
  walk-resolve fuel curr [] enough = refl
  walk-resolve zero curr (c ∷ cs) enough = absurd (omega (arith, enough))
  walk-resolve (suc fuel) curr (c ∷ cs) enough =
      let go : Option Ref → Option Ref =
        λ n. walk d fuel n (skip_slash (read_token 127 (c ∷ cs)).1) w in
      ap (λ token. descend d curr token w go) (read_token-take 127 (c ∷ cs))
      ∙ descend-resolve curr go (leading (c ∷ cs)) (behind (read_token 127 (c ∷ cs)).1) (λ n.
        walk-resolve fuel n (skip_slash (read_token 127 (c ∷ cs)).1)
          (omega (arith, enough, round-length 127 c cs))
        ∙ ap (resolve n) (sym (behind-components 127 (c ∷ cs))))
      ∙ ap (λ ts. resolve curr (drop_empty ts)) (sym (segments-read_token 127 (c ∷ cs)))

  -- The reference definition: no node unless the path starts with a slash.
  abbrev pub lookup_path : List ℕ → Option Ref
  lookup_path [] = none
  lookup_path (c ∷ cs) = if c == 47 then resolve (d.fs_root w) (components cs) else none

  -- For every path, `find_node_by_path` is the reference lookup: NULL unless the path starts with
  -- a slash, else from `fs_root` on one `finddir_fs` for each part between slashes that is not
  -- empty, cut to 127 characters.
  pub find_node_by_path-resolve : (path : List ℕ) → find_node_by_path d path w ≡ lookup_path path
  unfolding find_node_by_path
  find_node_by_path-resolve [] = refl
  find_node_by_path-resolve (c ∷ cs) =
      ap (λ r. if c == 47 then r else none)
        (walk-resolve (length cs) (d.fs_root w) cs (omega arith))
