-- ===== src/Scim/Patch/Operations/Filtered.antt =====
-- Operations on the items that a filter matches: the program collects their indices, and then
-- goes through the collection by index; here it is compared with a pass that tests the items.
use server_kit.Base.{
  ℕ, suc, ◌≤◌, ◌<◌, Text, insert, Result, ok, err, ◌>>=◌, some_of, Bool, true, false, if◌then◌else◌,
  List, [], ◌∷◌, ◌++◌, Option, some, ◌≡◌, refl, ap, ◌∙◌, arith,
}
use server_kit.Scim.Ast.{FilterNode}
use server_kit.Scim.Value.{
  Value, undefined, function, literal, array, object, items, Record, array_of, as_array, get,
}
use server_kit.Scim.Patch.Operations.Items.{
  item_after, change_item-item_after, new_item, seed-new_item,
}
use server_kit.Scim.Patch.Path.{PatchError, nothing_matched}
use server_kit.Scim.Patch.Evaluation.{Platform, on_plain, evaluate_filter}
use server_kit.Scim.Patch.Operations.{
  OpKind, add, replace, remove, matched_from, includes_index, drop_matched, map_matched,
  change_item, on_collection, filtered_collection, apply_filtered_op,
}

module _ {Num : Type 0} (test : Value Num → Bool) where
  -- The items that fail the test, in order.
  abbrev pub reject : List (Value Num) → List (Value Num)
  reject [] = []
  reject (v ∷ vs) = if test v then reject vs else v ∷ reject vs

  -- Every item that passes changed, each in its place.
  abbrev pub change_where : (Value Num → Value Num) → List (Value Num) → List (Value Num)
  change_where change [] = []
  change_where change (v ∷ vs) = (if test v then change v else v) ∷ change_where change vs

  matched_later :
      (i j : ℕ) (vs : List (Value Num)) → j < i → includes_index j (matched_from test i vs) ≡ false
  unfolding matched_from includes_index
  matched_later i j [] h = refl
  matched_later i j (v ∷ vs) h = ground (arith, matched_later (suc i) j vs)

  -- The list of indices agrees with the test from the index `i` on.
  abbrev Agrees : List ℕ → ℕ → List (Value Num) → Type 0
  Agrees matched i vs =
      (j : ℕ) → i ≤ j → includes_index j matched ≡ includes_index j (matched_from test i vs)

  Agrees-here :
      (matched : List ℕ) (i : ℕ) (v : Value Num) (vs : List (Value Num))
      → Agrees matched i (v ∷ vs)
      → includes_index i matched ≡ test v
  unfolding matched_from includes_index
  Agrees-here matched i v vs a = a i (omega arith) ∙ ground (arith, matched_later (suc i) i vs)

  Agrees-later :
      (matched : List ℕ) (i : ℕ) (v : Value Num) (vs : List (Value Num))
      → Agrees matched i (v ∷ vs)
      → Agrees matched (suc i) vs
  unfolding matched_from includes_index
  Agrees-later matched i v vs a j h = a j (omega arith) ∙ ground arith

  drop_matched-reject :
      (matched : List ℕ) (i : ℕ) (vs : List (Value Num))
      → Agrees matched i vs
      → drop_matched matched i vs ≡ reject vs
  unfolding drop_matched
  drop_matched-reject matched i [] a = refl
  drop_matched-reject matched i (v ∷ vs) a =
      rw
        (
          Agrees-here matched i v vs a,
          drop_matched-reject matched (suc i) vs (Agrees-later matched i v vs a),
        )
        refl

  map_matched-change_where :
      (change change' : Value Num → Value Num)
      → ((v : Value Num) → change v ≡ change' v)
      → (matched : List ℕ) (i : ℕ) (vs : List (Value Num)) → Agrees matched i vs
      → map_matched change matched i vs ≡ change_where change' vs
  unfolding map_matched
  map_matched-change_where change change' same matched i [] a = refl
  map_matched-change_where change change' same matched i (v ∷ vs) a =
      rw
        (
          Agrees-here matched i v vs a,
          same v,
          map_matched-change_where change change' same matched (suc i) vs
              (Agrees-later matched i v vs a),
        )
        refl

  -- What an operation makes of a collection, by the test alone.
  abbrev pub reference :
      OpKind → Option Text → Value Num → List (Value Num) → Result PatchError (List (Value Num))
  reference add sub v vs =
      if some_of test vs
      then ok (change_where (item_after add sub v) vs)
      else ok (vs ++ new_item v ∷ [])
  reference replace sub v vs =
      if some_of test vs
      then ok (change_where (item_after replace sub v) vs)
      else err nothing_matched
  reference remove sub v vs = if some_of test vs then ok (reject vs) else err nothing_matched

  -- There is a matched index if some item passes.
  abbrev is_nonempty : List ℕ → Bool
  is_nonempty [] = false
  is_nonempty (i ∷ is) = true

  matched-some_of :
      (i : ℕ) (vs : List (Value Num)) → is_nonempty (matched_from test i vs) ≡ some_of test vs
  unfolding matched_from
  matched-some_of i [] = refl
  matched-some_of i (v ∷ vs) = ground (arith, matched-some_of (suc i) vs)

  on_collection-reference :
      (kind : OpKind) (sub : Option Text) (v : Value Num) (vs : List (Value Num)) (matched : List ℕ)
      → Agrees matched 0 vs
      → is_nonempty matched ≡ some_of test vs
      → on_collection kind sub v vs matched ≡ reference kind sub v vs
  unfolding on_collection
  on_collection-reference add sub v vs [] a e = rw (← e, seed-new_item v) refl
  on_collection-reference replace sub v vs [] a e = rw (← e) refl
  on_collection-reference remove sub v vs [] a e = rw (← e) refl
  on_collection-reference add sub v vs (i ∷ is) a e = rw (← e) (
      ap ok (
        map_matched-change_where (change_item add sub v) (item_after add sub v)
          (change_item-item_after add sub v) (i ∷ is) 0 vs a))
  on_collection-reference replace sub v vs (i ∷ is) a e = rw (← e) (
      ap ok (
        map_matched-change_where (change_item replace sub v) (item_after replace sub v)
          (change_item-item_after replace sub v) (i ∷ is) 0 vs a))
  on_collection-reference remove sub v vs (i ∷ is) a e =
      rw (← e) (ap ok (drop_matched-reject (i ∷ is) 0 vs a))

module _ {Num : Type 0} (platform : Platform Num) where
  filtered_collection-reference :
      (current : Value Num) (filter : FilterNode Num) (sub : Option Text) (kind : OpKind)
      (v : Value Num) (collection : List (Value Num))
      → as_array current ≡ some collection
      → filtered_collection platform current filter sub kind v
        ≡ reference (on_plain platform (evaluate_filter platform filter)) kind sub v collection
  unfolding filtered_collection
  filtered_collection-reference (array vs) filter sub kind v collection e =
      let test = on_plain platform (evaluate_filter platform filter) in
      let same : items vs ≡ collection = cc in
      rw (← same) (
        on_collection-reference test kind sub v (items vs) (matched_from test 0 (items vs))
          (λ j h. refl) (matched-some_of test 0 (items vs)))
  filtered_collection-reference undefined filter sub kind v collection e = absurd (cc)
  filtered_collection-reference function filter sub kind v collection e = absurd (cc)
  filtered_collection-reference (literal l) filter sub kind v collection e = absurd (cc)
  filtered_collection-reference (object fs) filter sub kind v collection e = absurd (cc)

  -- On an attribute that holds an array, an operation with a filter does what one pass over the items
  -- does. `remove` drops exactly the items that the filter matches, each as a whole, also when a
  -- sub-attribute is named; `replace` and `add` change exactly the items that it matches, each in its
  -- place: the named sub-attribute of an object is set to the value, or an object is merged into it,
  -- or else `replace` puts the value in its place and `add` leaves it. If the filter matches no item,
  -- `add` appends the value, in an object with the key `value` if it is none, and the others fail. The
  -- other attributes are not touched.
  pub apply_filtered_op-reference :
      (resource : Record Num) (attr : Text) (filter : FilterNode Num) (sub : Option Text)
      (kind : OpKind) (v : Value Num) (collection : List (Value Num))
      → as_array (get attr resource) ≡ some collection
      → apply_filtered_op platform resource attr filter sub kind v ≡ (
          reference (on_plain platform (evaluate_filter platform filter)) kind sub v collection
          >>= λ vs. ok (insert attr (array_of vs) resource))
  unfolding apply_filtered_op
  apply_filtered_op-reference resource attr filter sub kind v collection e =
      ap (λ r. r >>= λ vs. ok (insert attr (array_of vs) resource))
        (filtered_collection-reference (get attr resource) filter sub kind v collection e)
