-- ===== src/Utilities/BinarySearch/Tests.antt =====
-- The binary search on concrete arrays.
use server_kit.Base.{ℕ, List, [], ◌∷◌, some, true, false, ◌≡◌, refl, arith}
use server_kit.Utilities.BinarySearch.{search, binary_search}
use server_kit.Utilities.BinarySearch.Correct.{occurs, binary_search-occurs}

abbrev array : List ℕ
array = 2 ∷ 3 ∷ 5 ∷ 8 ∷ 13 ∷ []

found : binary_search array 8 ≡ some true
unfolding binary_search search
found = refl

not_found : binary_search array 14 ≡ some false
unfolding binary_search search
not_found = refl

binary_search-occurs_example : binary_search array 8 ≡ some (occurs 8 array)
binary_search-occurs_example = binary_search-occurs array 8 (
  (omega arith, (omega arith, (omega arith, (omega arith, tt)))),
  (
    (omega arith, (omega arith, (omega arith, tt))),
    ((omega arith, (omega arith, tt)), ((omega arith, tt), (tt, tt))),
  ),
)
