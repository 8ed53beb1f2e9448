-- ===== src/Tar/Listing/Found.antt =====
-- `tar_readdir` of src/tar.c lists the entries that stand in the directory, one by one, and
-- `tar_finddir` finds the names that it gives.
use my_own_operating_system.Base.{
  ℕ, zero, suc, ◌+◌, ◌≤◌, ◌<◌, ◌≡◌, refl, inl, inr, Option, none, some, List, [], ◌∷◌, arith, ◌==◌,
  if◌then◌else◌, Bool-cases, ==-of_eq, ==-of_ne, length,
}
use my_own_operating_system.Vfs.{Dirent}
use my_own_operating_system.Tar.Names.{tar_finddir}
use my_own_operating_system.Tar.Listing.{dirent_of, is_listed, tar_readdir}

-- The directory entries for all entries that count, in order, from index `i` on.
abbrev pub listing : List ℕ → ℕ → List (List ℕ) → List Dirent
listing dir i [] = []
listing dir i (entry ∷ rest) =
    let others = listing dir (i + 1) rest in
    if is_listed dir entry then dirent_of dir entry i ∷ others else others

abbrev pub get_elem? : List Dirent → ℕ → Option Dirent
get_elem? [] k = none
get_elem? (d ∷ ds) zero = some d
get_elem? (d ∷ ds) (suc k) = get_elem? ds k

counted :
    (count index k : ℕ) (d : Dirent) (next : ℕ → Option Dirent) (others : List Dirent)
    → index ≡ count + k
    → ((j : ℕ) → index ≡ count + 1 + j → next (count + 1) ≡ get_elem? others j)
    → (if count == index then some d else next (count + 1)) ≡ get_elem? (d ∷ others) k
counted count index zero d next others e later = rw (==-of_eq count index (omega (arith, e))) refl
counted count index (suc j) d next others e later =
    rw (==-of_ne count index (λ z. absurd (omega (arith, z, e)))) (later j (omega (arith, e)))

readdir-listing_from :
    (dir : List ℕ) (index count k i : ℕ) (names : List (List ℕ))
    → index ≡ count + k
    → tar_readdir dir index count i names ≡ get_elem? (listing dir i names) k
unfolding tar_readdir
readdir-listing_from dir index count k i [] e = refl
readdir-listing_from dir index count k i (entry ∷ rest) e =
    elim (Bool-cases (is_listed dir entry)) [
      | inr no' ↦ rw no' (readdir-listing_from dir index count k (i + 1) rest e)
      | inl yes' ↦ rw yes' (
          counted count index k (dirent_of dir entry i) (λ c. tar_readdir dir index c (i + 1) rest)
            (listing dir (i + 1) rest) e
            (λ j. readdir-listing_from dir index (count + 1) j (i + 1) rest))
    ]

-- `tar_readdir` with an index gives the entry of that index in the list of all directory entries
-- that count, in the archive's order, or NULL where the list has none.
pub tar_readdir-listing :
    (dir : List ℕ) (index : ℕ) (names : List (List ℕ))
    → tar_readdir dir index 0 0 names ≡ get_elem? (listing dir 0 names) index
tar_readdir-listing dir index names = readdir-listing_from dir index 0 index 0 names (omega arith)

-- Every name fits the node's field.
abbrev pub Fit : List (List ℕ) → Type 0
Fit [] = Unit
Fit (e ∷ es) = (length e < 128) × Fit es

-- Where the name is found: at the entry listed, or at an earlier one of the same name.
abbrev pub FoundBy : List ℕ → ℕ → List (List ℕ) → Dirent → Type 0
FoundBy dir i names d = (j : ℕ) × (tar_finddir dir d.name i names ≡ some j) × (i ≤ j) × (j ≤ d.ino)
