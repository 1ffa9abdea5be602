-- ===== src/Utilities/BinarySearch.antt =====
-- packages/utilities/src/binarysearch.ts, on an array of natural numbers.
mod Correct
mod Tests
use server_kit.Base.{
  ℕ, zero, suc, ◌+◌, ◌-◌, ◌/◌, ltb, ◌==◌, length, Bool, true, false, if◌then◌else◌, List, [], ◌∷◌,
  Option, some, none,
}

-- `array[index]`, which is undefined outside the array.
abbrev pub at : ℕ → List ℕ → Option ℕ
at i [] = none
at zero (x ∷ xs) = some x
at (suc i) (x ∷ xs) = at i xs

-- `===`, `<` and `>` with a value that may be undefined.
abbrev pub same : Option ℕ → ℕ → Bool
same none value = false
same (some v) value = v == value

abbrev pub below : ℕ → Option ℕ → Bool
below value none = false
below value (some v) = ltb value v

abbrev pub above : ℕ → Option ℕ → Bool
above value none = false
above value (some v) = ltb v value

module _ (array : List ℕ) (value : ℕ) where
  -- `none` is no answer within the fuel.
  pub search : ℕ → ℕ → ℕ → Option Bool
  search zero start end = none
  search (suc fuel) start end =
      let range = end - start in
      let index = start + range / 2 in
      let array_value = at index array in
      let end' = if below value array_value then index else end in
      let start' = if above value array_value then index else start in
      let rest = search fuel start' end' in
      if same array_value value then some true else (if start == index then some false else rest)

-- One call more than there are elements.
pub binary_search : List ℕ → ℕ → Option Bool
binary_search array value = search array value (length array + 1) 0 (length array)
