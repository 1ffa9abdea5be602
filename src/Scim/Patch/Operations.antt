-- ===== src/Scim/Patch/Operations.antt =====
-- applyScimPatch and the operations of packages/scim/src/patch/patch.applier.ts. A resource is a value,
-- so the deep copy that protects the caller's object needs no counterpart.
pub mod Frame
pub mod Items
pub mod Filtered
mod Tests
use server_kit.Base.{
  ℕ, zero, suc, ◌+◌, ◌==◌, ◌*◌, ◌/◌, ◌%◌, Text, codes, text_eq, length, lookup, insert, erase,
  Result, ok, err, ◌>>=◌, Bool, true, false, not, ◌&&◌, if◌then◌else◌, List, [], ◌∷◌, ◌++◌, map,
  Option, some, none,
}
use server_kit.Scim.Ast.{FilterNode, Literal, string}
use server_kit.Scim.Tokenizer.{lower_case}
use server_kit.Scim.Value.{
  Value, Values, Fields, undefined, literal, array, object, no_fields, field, Record, items, fields,
  array_of, object_of, as_array, as_plain_object, get,
}
use server_kit.Scim.Patch.Path.{
  PatchError, remove_without_path, pathless_value, unknown_op, empty_path, not_multi_valued,
  nothing_matched, ParsedPath, parse_patch_path,
}
use server_kit.Scim.Patch.Evaluation.{Platform, on_plain, evaluate_filter}

pub data OpKind : Type 0 where
  add replace remove : OpKind

pub record PatchOp (Num : Type 0) : Type 0 where
  pub op : Text
  pub path : Option Text
  pub new_value : Value Num

pub normalise_op_kind : Text → Result PatchError OpKind
normalise_op_kind op =
    let lower = lower_case op in
    if text_eq lower (codes "add")
    then ok add
    else if text_eq lower (codes "replace")
    then ok replace
    else if text_eq lower (codes "remove")
    then ok remove
    else err unknown_op

-- `matched.includes(idx)`.
includes_index : ℕ → List ℕ → Bool
includes_index i [] = false
includes_index i (j ∷ js) = if j == i then true else includes_index i js

-- The decimal digits of an index, with the number as fuel.
digits : ℕ → ℕ → Text → Text
digits zero n acc = (n + b'0') ∷ acc
digits (suc f) n acc =
    let more = digits f (n / 10) ((n % 10 + b'0') ∷ acc) in
    if n / 10 == 0 then (n % 10 + b'0') ∷ acc else more

module _ {Num : Type 0} where
  -- `{ ...target, ...source }`.
  unfoldable pub merge : Record Num → Record Num → Record Num
  merge target [] = target
  merge target ((k, v) ∷ source) = merge (insert k v target) source

  indexed : ℕ → List (Value Num) → Record Num
  indexed i [] = []
  indexed i (v ∷ vs) = (digits i i [], v) ∷ indexed (suc i) vs

  characters : Text → List (Value Num)
  characters [] = []
  characters (c ∷ s) = literal (string (c ∷ [])) ∷ characters s

  -- `{ ...value }`: arrays and strings give their indices.
  spread : Value Num → Record Num
  spread (object fs) = fields fs
  spread (array vs) = indexed 0 (items vs)
  spread (literal (string s)) = indexed 0 (characters s)
  spread _ = []

  is_undefined : Value Num → Bool
  is_undefined undefined = true
  is_undefined _ = false

  -- What `add` makes of the existing value of an attribute.
  pub added : Value Num → Value Num → Value Num
  added existing v = elim (as_array existing) [
    | some vs ↦ elim (as_array v) [
      | some ws ↦ array_of (vs ++ ws)
      | none ↦ if is_undefined v then v else array_of (vs ++ v ∷ [])
    ]
    | none ↦ elim (as_plain_object existing) [
      | none ↦ v
      | some r ↦ elim (as_plain_object v) [ none ↦ v | some s ↦ object_of (merge r s) ]
    ]
  ]

  pub apply_simple_op : Record Num → Text → OpKind → Value Num → Record Num
  apply_simple_op resource attr remove v = erase attr resource
  apply_simple_op resource attr replace v = insert attr v resource
  apply_simple_op resource attr add v = insert attr (added (get attr resource) v) resource

  -- `out[key] = v`: the key `__proto__` sets the prototype and no property.
  assign : Text → Value Num → Record Num → Record Num
  assign k v r = if text_eq k (codes "__proto__") then r else insert k v r

  -- The loop of mergeObject for `add`.
  mutual
    merge_deep : Record Num → Fields Num → Record Num
    merge_deep out no_fields = out
    merge_deep out (field k v rest) = merge_deep (assign k (merged (get k out) v) out) rest

    merged : Value Num → Value Num → Value Num
    merged existing (array ws) = elim (as_array existing) [
      | some vs ↦ array_of (vs ++ items ws)
      | none ↦ array ws
    ]
    merged existing (object fs) =
        let deep : Record Num → Record Num = λ r. merge_deep r fs in
        elim (as_plain_object existing) [ some r ↦ object_of (deep r) | none ↦ object fs ]
    merged existing v = v

  pub merge_object : Record Num → Fields Num → OpKind → Record Num
  merge_object target source replace = merge target (fields source)
  merge_object target source _ = merge_deep target source

  -- `forEach` with the index: the indices of the items that pass.
  matched_from : (Value Num → Bool) → ℕ → List (Value Num) → List ℕ
  matched_from test i [] = []
  matched_from test i (v ∷ vs) =
      let rest = matched_from test (suc i) vs in if test v then i ∷ rest else rest

  -- `collection.filter((_, idx) => !matched.includes(idx))`.
  drop_matched : List ℕ → ℕ → List (Value Num) → List (Value Num)
  drop_matched matched i [] = []
  drop_matched matched i (v ∷ vs) =
      let rest = drop_matched matched (suc i) vs in
      if includes_index i matched then rest else v ∷ rest

  -- `collection.map` with the index.
  map_matched : (Value Num → Value Num) → List ℕ → ℕ → List (Value Num) → List (Value Num)
  map_matched change matched i [] = []
  map_matched change matched i (v ∷ vs) =
      (if includes_index i matched then change v else v) ∷ map_matched change matched (suc i) vs

  -- The new value of a matched item that is a plain object.
  change_object : OpKind → Option Text → Value Num → Record Num → Value Num
  change_object kind (some sub) v item = object_of (insert sub v item)
  change_object kind none v item = elim (as_plain_object v) [
    | some source ↦ object_of (merge item source)
    | none ↦ elim kind [ replace ↦ v | add ↦ object_of item | remove ↦ object_of item ]
  ]

  pub change_item : OpKind → Option Text → Value Num → Value Num → Value Num
  change_item kind sub v (object fs) = change_object kind sub v (fields fs)
  change_item kind sub v other = other

  -- `isPlainObject(value) ? { ...value } : { value }`.
  pub seed : Value Num → Value Num
  seed (object fs) = object fs
  seed v = object_of ((codes "value", v) ∷ [])

  -- The branches of applyFilteredOp on a collection with its matched indices.
  on_collection :
      OpKind
      → Option Text
      → Value Num
      → List (Value Num)
      → List ℕ
      → Result PatchError (List (Value Num))
  on_collection add sub v collection [] = ok (collection ++ seed v ∷ [])
  on_collection _ sub v collection [] = err nothing_matched
  on_collection remove sub v collection (i ∷ is) = ok (drop_matched (i ∷ is) 0 collection)
  on_collection kind sub v collection (i ∷ is) =
      ok (map_matched (change_item kind sub v) (i ∷ is) 0 collection)

  without_collection : OpKind → Value Num → Result PatchError (List (Value Num))
  without_collection add v = ok (object_of (spread v) ∷ [])
  without_collection _ v = err not_multi_valued

  -- `isPlainObject(child) ? { ...child } : {}`.
  pub child_object : Value Num → Record Num
  child_object v = elim (as_plain_object v) [ some r ↦ r | none ↦ [] ]

  module _ (platform : Platform Num) where
    -- applyFilteredOp: the new collection.
    filtered_collection :
        Value Num
        → FilterNode Num
        → Option Text
        → OpKind
        → Value Num
        → Result PatchError (List (Value Num))
    filtered_collection current filter sub kind v = elim (as_array current) [
      | none ↦ without_collection kind v
      | some collection ↦
          on_collection kind sub v collection
            (matched_from (on_plain platform (evaluate_filter platform filter)) 0 collection)
    ]

    pub apply_filtered_op :
        Record Num
        → Text
        → FilterNode Num
        → Option Text
        → OpKind
        → Value Num
        → Result PatchError (Record Num)
    apply_filtered_op resource attr filter sub kind v = do
      collection ← filtered_collection (get attr resource) filter sub kind v
      ok (insert attr (array_of collection) resource)

    -- applyAtPath at its last segment.
    apply_at_leaf :
        Record Num
        → Text
        → Option (FilterNode Num)
        → Option Text
        → OpKind
        → Value Num
        → Result PatchError (Record Num)
    apply_at_leaf resource attr (some filter) sub kind v =
        apply_filtered_op resource attr filter sub kind v
    apply_at_leaf resource attr none sub kind v = ok (apply_simple_op resource attr kind v)

    -- An empty segment is as falsy as a missing one.
    pub apply_at_path :
        Record Num
        → List Text
        → Option (FilterNode Num)
        → Option Text
        → OpKind
        → Value Num
        → Result PatchError (Record Num)
    apply_at_path resource [] filter sub kind v = err empty_path
    apply_at_path resource ([] ∷ rest) filter sub kind v = err empty_path
    apply_at_path resource ((c ∷ cs) ∷ []) filter sub kind v =
        apply_at_leaf resource (c ∷ cs) filter sub kind v
    apply_at_path resource ((c ∷ cs) ∷ (next ∷ rest)) filter sub kind v = do
      updated ← apply_at_path (child_object (get (c ∷ cs) resource)) (next ∷ rest) filter sub kind v
      ok (insert (c ∷ cs) (object_of updated) resource)

    merge_pathless : Record Num → OpKind → Value Num → Result PatchError (Record Num)
    merge_pathless resource remove v = err remove_without_path
    merge_pathless resource kind (object fs) = ok (merge_object resource fs kind)
    merge_pathless resource kind v = err pathless_value

    at_raw_path : Record Num → OpKind → Text → Value Num → Result PatchError (Record Num)
    at_raw_path resource kind raw v = do
      path ← parse_patch_path (platform.to_number) raw
      apply_at_path resource (path.segments) (path.filter) (path.filter_sub_attr) kind v

    apply_kind : Record Num → OpKind → Option Text → Value Num → Result PatchError (Record Num)
    apply_kind resource kind none v = merge_pathless resource kind v
    apply_kind resource kind (some []) v = merge_pathless resource kind v
    apply_kind resource kind (some (c ∷ raw)) v = at_raw_path resource kind (c ∷ raw) v

    pub apply_one : Record Num → PatchOp Num → Result PatchError (Record Num)
    apply_one resource op =
        normalise_op_kind (op.op) >>= λ kind. apply_kind resource kind (op.path) (op.new_value)

    pub apply_scim_patch : Record Num → List (PatchOp Num) → Result PatchError (Record Num)
    apply_scim_patch resource [] = ok resource
    apply_scim_patch resource (op ∷ ops) =
        apply_one resource op >>= λ next. apply_scim_patch next ops
