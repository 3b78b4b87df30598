-- ===== src/Server/Hub/Counts.antt =====
-- How often a pointer stands in a list.
use hcl_assignment.Common.{
  ℕ, ◌+◌, ◌<◌, Bool, true, List, [], ◌∷◌, ◌++◌, ◌≡◌, ◌↔◌, eqb, filter, arith, if◌then◌else◌,
}
use hcl_assignment.Server.Hub.{mem, remove}

abbrev pub count : ℕ → List ℕ → ℕ
count i [] = 0
count i (j ∷ rest) = (if eqb j i then 1 else 0) + count i rest

pub count-append : (i : ℕ) (xs ys : List ℕ) → count i (xs ++ ys) ≡ count i xs + count i ys
count-append i [] ys = omega arith
count-append i (x ∷ xs) ys = omega (arith, count-append i xs ys)

pub mem_iff : (i : ℕ) (xs : List ℕ) → (mem i xs ≡ true) ↔ (0 < count i xs)
mem_iff i [] = ground arith
mem_iff i (x ∷ xs) = ground (arith, mem_iff i xs)

pub count-remove :
    (i j : ℕ) (xs : List ℕ) → count i (remove j xs) ≡ (if eqb i j then 0 else count i xs)
count-remove i j [] = ground arith
count-remove i j (x ∷ xs) = ground (arith, count-remove i j xs)

pub count-filter :
    (i : ℕ) (p : ℕ → Bool) (xs : List ℕ) → count i (filter p xs) ≡ (if p i then count i xs else 0)
count-filter i p [] = ground arith
count-filter i p (x ∷ xs) = ground (arith, count-filter i p xs)
