-- ===== src/Utilities/BinarySearch/Correct.antt =====
-- The search against a scan of the whole array.
use server_kit.Base.{
  ℕ, zero, suc, ◌+◌, ◌-◌, ◌/◌, ◌≤◌, ◌<◌, ltb, ◌==◌, ==_refl, subst, ◌||◌, length, All, Bool, true,
  false, Bool-cases, Option-cases, List, [], ◌∷◌, Option, some, none, is_some, ◌≡◌, ◌≢◌, refl, sym,
  ap, ◌∙◌, inl, inr, arith,
}
use server_kit.Utilities.BinarySearch.{at, same, search, binary_search}

abbrev pub occurs : ℕ → List ℕ → Bool
occurs value [] = false
occurs value (x ∷ xs) = x == value || occurs value xs

abbrev pub IsSorted : List ℕ → Type 0
IsSorted [] = Unit
IsSorted (x ∷ xs) = All (λ y. x ≤ y) xs × IsSorted xs

at-above : (x : ℕ) (xs : List ℕ) → All (λ y. x ≤ y) xs → (j w : ℕ) → at j xs ≡ some w → x ≤ w
at-above x [] h j w e = cc
at-above x (y ∷ ys) h zero w e = ground arith
at-above x (y ∷ ys) h (suc j) w e = at-above x ys h.1 j w e

at-sorted :
    (xs : List ℕ)
    → IsSorted xs
    → (i j v w : ℕ) → i ≤ j
    → at i xs ≡ some v
    → at j xs ≡ some w
    → v ≤ w
at-sorted [] h i j v w le e₁ e₂ = cc
at-sorted (x ∷ xs) h zero zero v w le e₁ e₂ = ground arith
at-sorted (x ∷ xs) h zero (suc j) v w le e₁ e₂ =
    let e : x ≡ v = ground arith in let low : x ≤ w = at-above x xs h.0 j w e₂ in omega arith
at-sorted (x ∷ xs) h (suc i) zero v w le e₁ e₂ = omega arith
at-sorted (x ∷ xs) h (suc i) (suc j) v w le e₁ e₂ = at-sorted xs h.1 i j v w (omega arith) e₁ e₂

at-length : (xs : List ℕ) (i : ℕ) → i < length xs → is_some (at i xs) ≡ true
at-length [] i h = absurd (omega arith)
at-length (x ∷ xs) zero h = refl
at-length (x ∷ xs) (suc i) h = at-length xs i (omega arith)

at-occurs : (value : ℕ) (xs : List ℕ) (i : ℕ) → at i xs ≡ some value → occurs value xs ≡ true
at-occurs value [] i e = cc
at-occurs value (x ∷ xs) zero e = ground arith
at-occurs value (x ∷ xs) (suc i) e = ground (arith, at-occurs value xs i e)

never-occurs :
    (value : ℕ) (xs : List ℕ) → ((i : ℕ) → at i xs ≢ some value) → occurs value xs ≡ false
never-occurs value [] h = refl
never-occurs value (x ∷ xs) h =
    let first : x ≢ value = λ e. h 0 (ap some e) in
    let rest = never-occurs value xs (λ i. h (suc i)) in
    elim (Bool-cases (x == value)) [
      | inl same ↦ absurd (first (ground arith))
      | inr other ↦ rw (other, rest) refl
    ]

at-same : (value : ℕ) (o : Option ℕ) → same o value ≡ true → o ≡ some value
at-same value none h = cc
at-same value (some v) h = ap some (ground arith)

at-bound : (xs : List ℕ) (i v : ℕ) → at i xs ≡ some v → i < length xs
at-bound [] i v e = cc
at-bound (x ∷ xs) zero v e = omega arith
at-bound (x ∷ xs) (suc i) v e = let rest = at-bound xs i v e in omega arith

-- A smaller element of a sorted array stands before a larger one.
before :
    (xs : List ℕ)
    → IsSorted xs
    → (i j v w : ℕ) → at i xs ≡ some v
    → at j xs ≡ some w
    → v < w
    → i < j
before xs sorted i j v w e₁ e₂ h = elim (Bool-cases (ltb i j)) [
  | inl less ↦ ground arith
  | inr not_less ↦
      let back : w ≤ v = at-sorted xs sorted j i w v (ground arith) e₂ e₁ in absurd (omega arith)
]

-- The search keeps every place of the value between its bounds, and each call has fewer places.
search-occurs :
    (array : List ℕ) (value fuel start end : ℕ)
    → IsSorted array
    → start ≤ end
    → end ≤ length array
    → end < start + fuel
    → ((i : ℕ) → at i array ≡ some value → (start ≤ i) × (i < end))
    → search array value fuel start end ≡ some (occurs value array)
unfolding search
search-occurs array value zero start end sorted h₁ h₂ h₃ within = absurd (omega arith)
search-occurs array value (suc fuel) start end sorted h₁ h₂ h₃ within =
    let index = start + (end - start) / 2 in
    elim (Bool-cases (same (at index array) value)) [
      | inl found ↦
          rw (found, search)
            (ap some (sym (at-occurs value array index (at-same value (at index array) found))))
      | inr other ↦ elim (Bool-cases (start == index)) [
        | inl last ↦
            rw (other, search, last)
              (ap some (
                sym (
                  never-occurs value array (λ i e.
                    let (a, b) = within i e in
                    let only : i ≡ index = ground arith in
                    let t : same (at index array) value ≡ true =
                      ap (λ j. same (at j array) value) (sym only)
                      ∙ ap (λ o. same o value) e
                      ∙ ==_refl value in
                    cc))))
        | inr more ↦
            let inside : (start < index) × (index < end) = (ground arith, ground arith) in
            elim (Option-cases (at index array)) [
              | inl undefined ↦
                  let defined : is_some (at index array) ≡ true =
                    at-length array index (omega arith) in
                  cc
              | inr (v, there) ↦
                  let differ : (v == value) ≡ false =
                    subst (λ o. same o value ≡ false) there other in
                  elim (Bool-cases (ltb value v)) [
                    | inl low ↦
                        let not_high : ltb v value ≡ false = ground arith in
                        rw (search, other, more, there, low, not_high)
                          (search-occurs array value fuel start index sorted (omega arith)
                            (omega arith) (omega arith)
                            (λ i e. (
                              (within i e).0,
                              before array sorted i index value v e there (ground arith),
                            )))
                    | inr not_low ↦
                        let high : ltb v value ≡ true = ground arith in
                        rw (search, other, more, there, high, not_low)
                          (search-occurs array value fuel index end sorted (omega arith) h₂
                            (omega arith)
                            (λ i e.
                              let first =
                                before array sorted index i v value there e (ground arith) in
                              (omega arith, (within i e).1)))
                  ]
            ]
      ]
    ]

-- On a sorted array, the search ends within as many calls as the array has elements and one more, and
-- finds exactly the values that occur in the array.
pub binary_search-occurs :
    (array : List ℕ) (value : ℕ)
    → IsSorted array
    → binary_search array value ≡ some (occurs value array)
unfolding binary_search
binary_search-occurs array value sorted =
    search-occurs array value (length array + 1) 0 (length array) sorted (omega arith) (omega arith)
      (omega arith) (λ i e. (omega arith, at-bound array i value e))
