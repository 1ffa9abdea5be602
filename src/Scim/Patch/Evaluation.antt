-- ===== src/Scim/Patch/Evaluation.antt =====
-- evaluateFilter, evaluateComparison and compareScalar of packages/scim/src/patch/patch.applier.ts.
use server_kit.Base.{
  Text, text_eq, ltb, ◌==◌, some_of, Bool, true, false, not, ◌&&◌, ◌||◌, if◌then◌else◌, List, [],
  ◌∷◌, Option, some, none,
}
use server_kit.Scim.Ast.{
  Operator, eq, ne, co, sw, ew, gt, ge, lt, le, pr, and, or, Literal, string, number, boolean, null,
  FilterNode, presence, comparison, logical, negation, value_path,
}
use server_kit.Scim.Value.{
  Value, undefined, literal, object, Record, get, fields, object_of, as_array, as_plain_object,
}
use server_kit.Scim.Patch.Path.{split_dots}

-- The result of a comparison with `> 0`, `>= 0` and `< 0` in mind; `unordered` is NaN.
pub data Sign : Type 0 where
  negative zero_sign positive unordered : Sign

-- What JavaScript does with numbers and with Unicode: `===` and the sign of the difference on
-- numbers, `String(v)`, and `toLowerCase`.
pub record Platform (Num : Type 0) : Type 0 where
  pub to_number : Text → Option Num
  pub number_eq : Num → Num → Bool
  pub difference : Num → Num → Sign
  pub to_text : Value Num → Text
  pub to_lower_case : Text → Text

abbrev starts_with : Text → Text → Bool
starts_with p [] = text_eq p []
starts_with [] (c ∷ s) = true
starts_with (d ∷ p) (c ∷ s) = d == c && starts_with p s

abbrev includes_text : Text → Text → Bool
includes_text p [] = text_eq p []
includes_text p (c ∷ s) = starts_with p (c ∷ s) || includes_text p s

abbrev ends_with : Text → Text → Bool
ends_with p [] = text_eq p []
ends_with p (c ∷ s) = text_eq p (c ∷ s) || ends_with p s

-- `<` on strings: by code units.
text_lt : Text → Text → Bool
text_lt [] [] = false
text_lt [] (d ∷ t) = true
text_lt (c ∷ s) [] = false
text_lt (c ∷ s) (d ∷ t) = ltb c d || c == d && text_lt s t

module _ {Num : Type 0} (platform : Platform Num) where
  abbrev bool_eq : Bool → Bool → Bool
  bool_eq true b = b
  bool_eq false b = not b

  -- `current === value`, for a value of a filter; objects differ from every literal.
  strict_eq : Value Num → Literal Num → Bool
  strict_eq (literal (string s)) (string t) = text_eq s t
  strict_eq (literal (number n)) (number n') = platform.number_eq n n'
  strict_eq (literal (boolean b)) (boolean b') = bool_eq b b'
  strict_eq (literal null) null = true
  strict_eq _ _ = false

  compare_text : Text → Text → Sign
  compare_text s t = if text_lt s t then negative else if text_lt t s then positive else zero_sign

  compare_scalar : Value Num → Literal Num → Sign
  compare_scalar (literal (number a)) (number b) = platform.difference a b
  compare_scalar a b = compare_text (platform.to_text a) (platform.to_text (literal b))

  -- The tests of two strings without regard to case.
  fold_strings : (Text → Text → Bool) → Value Num → Literal Num → Bool
  fold_strings test (literal (string s)) (string t) =
      test (platform.to_lower_case t) (platform.to_lower_case s)
  fold_strings test _ _ = false

  abbrev is_positive : Sign → Bool
  is_positive positive = true
  is_positive _ = false

  abbrev is_negative : Sign → Bool
  is_negative negative = true
  is_negative _ = false

  abbrev is_zero : Sign → Bool
  is_zero zero_sign = true
  is_zero _ = false

  -- The switch over the operators, on a value that is there.
  compare : Operator → Value Num → Literal Num → Bool
  compare eq current v = strict_eq current v
  compare ne current v = not (strict_eq current v)
  compare co current v = fold_strings includes_text current v
  compare sw current v = fold_strings starts_with current v
  compare ew current v = fold_strings ends_with current v
  compare gt current v = is_positive (compare_scalar current v)
  compare ge current v = let s = compare_scalar current v in is_positive s || is_zero s
  compare lt current v = is_negative (compare_scalar current v)
  compare le current v = let s = compare_scalar current v in is_negative s || is_zero s
  compare pr current v = false

  -- The value behind the segments; `none` once something on the way is no plain object.
  walk : List Text → Value Num → Option (Value Num)
  walk [] current = some current
  walk (seg ∷ segs) (object fs) = walk segs (get seg (fields fs))
  walk (seg ∷ segs) _ = none

  is_present : Value Num → Bool
  is_present undefined = false
  is_present (literal null) = false
  is_present (literal (string s)) = not (text_eq s [])
  is_present _ = true

  is_nullish : Value Num → Bool
  is_nullish undefined = true
  is_nullish (literal null) = true
  is_nullish _ = false

  pub evaluate_comparison : Record Num → Text → Operator → Literal Num → Bool
  evaluate_comparison item attr operator v = elim (walk (split_dots attr) (object_of item)) [
    | none ↦ false
    | some current ↦ if is_nullish current then false else compare operator current v
  ]

  evaluate_presence : Record Num → Text → Bool
  evaluate_presence item attr = elim (walk (split_dots attr) (object_of item)) [
    | none ↦ false
    | some current ↦ is_present current
  ]

  -- A test of the items that are plain objects.
  pub on_plain : (Record Num → Bool) → Value Num → Bool
  on_plain test v = elim (as_plain_object v) [ none ↦ false | some r ↦ test r ]

  any_plain : (Record Num → Bool) → Value Num → Bool
  any_plain test v = elim (as_array v) [ none ↦ false | some vs ↦ some_of (on_plain test) vs ]

  pub evaluate_filter : FilterNode Num → Record Num → Bool
  evaluate_filter (presence attr) item = evaluate_presence item attr
  evaluate_filter (comparison attr pr v) item = evaluate_presence item attr
  evaluate_filter (comparison attr operator v) item = evaluate_comparison item attr operator v
  evaluate_filter (logical and l r) item = evaluate_filter l item && evaluate_filter r item
  evaluate_filter (logical or l r) item = evaluate_filter l item || evaluate_filter r item
  evaluate_filter (negation f) item = not (evaluate_filter f item)
  evaluate_filter (value_path attr f) item = any_plain (evaluate_filter f) (get attr item)
