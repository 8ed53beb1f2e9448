-- ===== src/Tar/Names.antt =====
-- The names of src/tar.c: which entries stand directly in a directory, with `strlen`, `strcmp` and
-- `strncmp` of src/string.c. A string is the list of its characters before the final zero.
pub mod Child
pub mod Find
use my_own_operating_system.Base.{
  ℕ, zero, suc, ◌+◌, ◌-◌, Bool, true, false, ◌||◌, Option, none, some, List, [], ◌∷◌, ◌==◌,
  if◌then◌else◌, length,
}

-- Whether `strcmp` returns 0.
unfoldable pub strcmp_zero : List ℕ → List ℕ → Bool
strcmp_zero [] [] = true
strcmp_zero [] (y ∷ ys) = false
strcmp_zero (x ∷ xs) [] = false
strcmp_zero (x ∷ xs) (y ∷ ys) = let rest = strcmp_zero xs ys in if x == y then rest else false

-- Whether `strncmp` returns 0, for `n` characters.
unfoldable pub strncmp_zero : ℕ → List ℕ → List ℕ → Bool
strncmp_zero zero xs ys = true
strncmp_zero (suc n) [] [] = true
strncmp_zero (suc n) [] (y ∷ ys) = false
strncmp_zero (suc n) (x ∷ xs) [] = false
strncmp_zero (suc n) (x ∷ xs) (y ∷ ys) =
    let rest = strncmp_zero n xs ys in if x == y then rest else false

abbrev pub is_empty : List ℕ → Bool
is_empty [] = true
is_empty (x ∷ xs) = false

-- `s + n`, for a string with at least `n` characters.
abbrev pub skip : ℕ → List ℕ → List ℕ
skip zero s = s
skip (suc n) [] = []
skip (suc n) (x ∷ xs) = skip n xs

-- The loop of `is_direct_child`: no slash but a trailing one.
unfoldable pub one_component : List ℕ → Bool
one_component [] = true
one_component (c ∷ cs) = let rest = one_component cs in if c == 47 then is_empty cs else rest

unfoldable pub is_direct_child : List ℕ → List ℕ → Bool
unfolding strcmp_zero strncmp_zero one_component
is_direct_child dir child =
    if strcmp_zero dir (47 ∷ []) || (length dir == 0)
    then one_component child
    else if strncmp_zero (length dir) dir child
    then one_component (skip (length dir) child)
    else false

-- Whether the string is not empty and its last character is a slash.
unfoldable pub ends_with_slash : List ℕ → Bool
ends_with_slash [] = false
ends_with_slash (c ∷ []) = c == 47
ends_with_slash (c ∷ d ∷ cs) = ends_with_slash (d ∷ cs)

-- The length of a name without its trailing slash.
unfoldable pub name_length : List ℕ → ℕ
unfolding ends_with_slash
name_length rel = if ends_with_slash rel then length rel - 1 else length rel

unfoldable pub match_name : List ℕ → List ℕ → Bool
match_name rel search =
    if name_length rel == length search then strncmp_zero (name_length rel) rel search else false

-- The test of one entry in `tar_finddir`.
unfoldable pub is_match : List ℕ → List ℕ → List ℕ → Bool
is_match dir search entry =
    if strcmp_zero entry dir
    then false
    else if is_direct_child dir entry
    then match_name (skip (length dir) entry) search
    else false

-- `tar_finddir`, over the names of the entries from index `i` on.
unfoldable pub tar_finddir : List ℕ → List ℕ → ℕ → List (List ℕ) → Option ℕ
tar_finddir dir search i [] = none
tar_finddir dir search i (entry ∷ rest) =
    let further = tar_finddir dir search (i + 1) rest in
    if is_match dir search entry then some i else further
