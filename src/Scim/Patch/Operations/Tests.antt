-- ===== src/Scim/Patch/Operations/Tests.antt =====
-- Operations on concrete resources.
use server_kit.Base.{
  ℕ, ◌==◌, ltb, Text, codes, insert, ok, err, ◌>>=◌, if◌then◌else◌, [], ◌∷◌, some, none, ◌≡◌, refl,
}
use server_kit.Scim.Ast.{FilterNode, comparison, eq, string}
use server_kit.Scim.Tokenizer.{lower_case}
use server_kit.Scim.Value.{Value, undefined, literal, Record, array_of, object_of, get}
use server_kit.Scim.Patch.Path.{remove_without_path, empty_path, pathless_value, unknown_op}
use server_kit.Scim.Patch.Evaluation.{
  Platform, negative, zero_sign, positive, on_plain, evaluate_filter,
}
use server_kit.Scim.Patch.Operations.{
  replace, remove, apply_at_path, apply_filtered_op, apply_at_leaf, filtered_collection,
  apply_simple_op, child_object, on_collection, matched_from, includes_index, drop_matched,
  map_matched, change_item, change_object, seed, merge, normalise_op_kind, apply_one, apply_kind,
  apply_scim_patch, merge_pathless, without_collection,
}
use server_kit.Scim.Patch.Operations.Frame.{
  value_at, written, last_segment, apply_at_path-other, apply_at_path-value_at,
}
use server_kit.Scim.Patch.Operations.Filtered.{reference, apply_filtered_op-reference}

opened : Unit {0}
unfolding apply_at_path apply_filtered_op apply_at_leaf filtered_collection apply_simple_op
    child_object on_collection matched_from includes_index drop_matched map_matched change_item
    change_object seed merge get normalise_op_kind apply_one apply_kind apply_scim_patch
    merge_pathless without_collection lower_case
opened = tt

-- Numbers that are natural, printed as nothing: the runs print none.
abbrev platform : Platform ℕ
platform = record {
  to_number = λ s. none;
  number_eq = λ a b. a == b;
  difference = λ a b. if ltb a b then negative else if a == b then zero_sign else positive;
  to_text = λ v. [];
  to_lower_case = λ s. s;
}

abbrev text : Text → Value ℕ
text s = literal (string s)

abbrev email : Text → Text → Value ℕ
email kind address = object_of ((codes "type", text kind) ∷ (codes "value", text address) ∷ [])

abbrev user : Record ℕ
user =
    (codes "name", object_of ((codes "familyName", text (codes "Doe")) ∷ []))
    ∷ (
      codes "emails",
      array_of (email (codes "work") (codes "w") ∷ email (codes "home") (codes "h") ∷ []),
    )
    ∷ []

abbrev is_work : FilterNode ℕ
is_work = comparison (codes "type") eq (string (codes "work"))

abbrev renamed : Record ℕ
renamed =
    (codes "name", object_of ((codes "familyName", text (codes "Roe")) ∷ []))
    ∷ (
      codes "emails",
      array_of (email (codes "work") (codes "w") ∷ email (codes "home") (codes "h") ∷ []),
    )
    ∷ []

rename :
    apply_at_path platform user
      (codes "name" ∷ codes "familyName" ∷ [])
      none
      none
      replace
      (text (codes "Roe"))
    ≡ ok renamed
unfolding opened
rename = refl

-- A path through an array replaces the array by an object.
through_array :
    apply_at_path platform user (codes "emails" ∷ codes "value" ∷ []) none none remove undefined
    ≡ ok (insert (codes "emails") (object_of []) user)
unfolding opened
through_array = refl

-- `remove` with a sub-attribute drops the whole item, as it does without one.
remove_ignores_sub_attribute :
    apply_filtered_op platform user (codes "emails") is_work (some (codes "value")) remove undefined
    ≡ apply_filtered_op platform user (codes "emails") is_work none remove undefined
unfolding opened
remove_ignores_sub_attribute = refl

refused :
    (apply_scim_patch platform user
        (record { op = codes "Remove"; path = none; new_value = undefined } ∷ [])
      ≡ err remove_without_path)
    × (apply_scim_patch platform user
          (record { op = codes "ADD"; path = some []; new_value = undefined } ∷ [])
        ≡ err pathless_value)
    × (apply_scim_patch platform user
          (record { op = codes "move"; path = none; new_value = undefined } ∷ [])
        ≡ err unknown_op)
unfolding opened
refused = (refl, refl, refl)

apply_at_path-other_example : get (codes "emails") renamed ≡ get (codes "emails") user
apply_at_path-other_example =
    apply_at_path-other platform user renamed (codes "name") (codes "familyName" ∷ []) none none
      replace (text (codes "Roe")) (codes "emails") refl rename

apply_at_path-value_at_example :
    (result : Record ℕ) × (apply_at_path platform user
        (codes "name" ∷ codes "familyName" ∷ [])
        none
        none
        remove
        undefined
      ≡ ok result)
    × (value_at (codes "name" ∷ codes "familyName" ∷ []) (object_of result)
        ≡ written remove
            (last_segment (codes "name") (codes "familyName" ∷ []))
            (value_at (codes "name" ∷ codes "familyName" ∷ []) (object_of user))
            undefined)
apply_at_path-value_at_example =
    apply_at_path-value_at platform user (codes "name") (codes "familyName" ∷ []) none remove
      undefined (tt, (tt, tt))

-- An empty segment is refused like a missing one.
empty_segment : apply_at_path platform user ([] ∷ []) none none remove undefined ≡ err empty_path
unfolding opened
empty_segment = refl

apply_filtered_op-reference_example :
    apply_filtered_op platform user
      (codes "emails")
      is_work
      (some (codes "value"))
      replace
      (text (codes "x"))
    ≡ (reference
          (on_plain platform (evaluate_filter platform is_work))
          replace
          (some (codes "value"))
          (text (codes "x"))
          (email (codes "work") (codes "w") ∷ email (codes "home") (codes "h") ∷ [])
        >>= λ vs. ok (insert (codes "emails") (array_of vs) user))
unfolding get
apply_filtered_op-reference_example =
    apply_filtered_op-reference platform user (codes "emails") is_work (some (codes "value"))
      replace (text (codes "x"))
      (email (codes "work") (codes "w") ∷ email (codes "home") (codes "h") ∷ []) refl
