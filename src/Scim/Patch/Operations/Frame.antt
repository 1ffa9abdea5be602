-- ===== src/Scim/Patch/Operations/Frame.antt =====
-- What an operation at a path changes and what it leaves alone.
use server_kit.Base.{
  Text, text_eq, text_eq_refl, insert, erase, lookup-insert, lookup-erase, Result, ok, err, ◌>>=◌,
  false, List, [], ◌∷◌, ◌++◌, All, Option, some, none, ◌≡◌, refl, ap, ◌∙◌,
}
use server_kit.Scim.Ast.{FilterNode}
use server_kit.Scim.Value.{
  undefined, function, literal, array, object, items, fields, as_array, as_plain_object, Value,
  Record, fields-from_fields, object_of, array_of, inherited, get,
}
use server_kit.Scim.Patch.Path.{PatchError}
use server_kit.Scim.Patch.Evaluation.{Platform}
use server_kit.Scim.Patch.Operations.{
  OpKind, add, replace, remove, added, merge, is_undefined, apply_simple_op, filtered_collection,
  apply_filtered_op, apply_at_leaf, child_object, apply_at_path,
}

abbrev pub last_segment : Text → List Text → Text
last_segment k [] = k
last_segment k (j ∷ ks) = last_segment j ks

abbrev pub IsFilled : Text → Type 0
IsFilled [] = ⊥
IsFilled (c ∷ s) = Unit

module _ {Num : Type 0} where
  get-insert_other :
      (k j : Text) (v : Value Num) (r : Record Num)
      → text_eq k j ≡ false
      → get j (insert k v r) ≡ get j r
  unfolding get
  get-insert_other k j v r h = rw (get, lookup-insert k j v r, h) refl

  get-insert : (k : Text) (v : Value Num) (r : Record Num) → get k (insert k v r) ≡ v
  unfolding get
  get-insert k v r = rw (get, lookup-insert k k v r, text_eq_refl k) refl

  get-erase_other :
      (k j : Text) (r : Record Num) → text_eq k j ≡ false → get j (erase k r) ≡ get j r
  unfolding get
  get-erase_other k j r h = rw (get, lookup-erase k j r, h) refl

  get-erase : (k : Text) (r : Record Num) → get k (erase k r) ≡ inherited k
  unfolding get
  get-erase k r = rw (get, lookup-erase k k r, text_eq_refl k) refl

  apply_simple_op-other :
      (r : Record Num) (attr k : Text) (kind : OpKind) (v : Value Num)
      → text_eq attr k ≡ false
      → get k (apply_simple_op r attr kind v) ≡ get k r
  unfolding apply_simple_op
  apply_simple_op-other r attr k remove v h = get-erase_other attr k r h
  apply_simple_op-other r attr k replace v h = get-insert_other attr k v r h
  apply_simple_op-other r attr k add v h = get-insert_other attr k (added (get attr r) v) r h

  -- An operation that ends with an assignment to the attribute leaves the others alone.
  insert-other :
      {A : Type 0} (p : Result PatchError A) (build : A → Value Num) (r result : Record Num)
      (attr k : Text)
      → text_eq attr k ≡ false
      → (p >>= λ a. ok (insert attr (build a) r)) ≡ ok result
      → get k result ≡ get k r
  insert-other (ok a) build r result attr k h e =
      let same : insert attr (build a) r ≡ result = cc in
      rw (← same) (get-insert_other attr k (build a) r h)
  insert-other (err x) build r result attr k h e = absurd (cc)

  -- The value at a path, a value on the way that is no object counting as an empty one.
  abbrev pub value_at : List Text → Value Num → Value Num
  value_at [] v = v
  value_at (k ∷ ks) v = value_at ks (get k (child_object v))

  -- Every attribute of the second record put into the first, one after the other.
  abbrev pub union : Record Num → Record Num → Record Num
  union r [] = r
  union r ((k, v) ∷ more) = union (insert k v r) more

  pub merge-union : (r more : Record Num) → merge r more ≡ union r more
  unfolding merge
  merge-union r [] = refl
  merge-union r ((k, v) ∷ more) = merge-union (insert k v r) more

  -- The given value added to the old one.
  abbrev pub joined : Value Num → Value Num → Value Num
  joined (array vs) (array ws) = array_of (items vs ++ items ws)
  joined (array vs) undefined = undefined
  joined (array vs) v = array_of (items vs ++ v ∷ [])
  joined (object fs) (object gs) = object_of (union (fields fs) (fields gs))
  joined old v = v

  -- What the operation puts in the place of a value.
  abbrev pub written : OpKind → Text → Value Num → Value Num → Value Num
  written remove k old v = inherited k
  written replace k old v = v
  written add k old v = joined old v

  added-joined : (old v : Value Num) → added old v ≡ joined old v
  unfolding added as_array as_plain_object is_undefined
  added-joined (array vs) (array ws) = refl
  added-joined (array vs) undefined = refl
  added-joined (array vs) function = refl
  added-joined (array vs) (literal l) = refl
  added-joined (array vs) (object gs) = refl
  added-joined (object fs) (array ws) = refl
  added-joined (object fs) undefined = refl
  added-joined (object fs) function = refl
  added-joined (object fs) (literal l) = refl
  added-joined (object fs) (object gs) = ap object_of (merge-union (fields fs) (fields gs))
  added-joined undefined v = refl
  added-joined function v = refl
  added-joined (literal l) v = refl

  child-object_of : (r : Record Num) → child_object (object_of r) ≡ r
  unfolding child_object
  child-object_of r = fields-from_fields r

  apply_simple_op-written :
      (r : Record Num) (attr : Text) (kind : OpKind) (v : Value Num)
      → get attr (apply_simple_op r attr kind v) ≡ written kind attr (get attr r) v
  unfolding apply_simple_op
  apply_simple_op-written r attr remove v = get-erase attr r
  apply_simple_op-written r attr replace v = get-insert attr v r
  apply_simple_op-written r attr add v =
      get-insert attr (added (get attr r) v) r ∙ added-joined (get attr r) v

module _ {Num : Type 0} (platform : Platform Num) where
  -- An operation at a path, with or without a filter, leaves every attribute of the resource alone
  -- but the one that the path begins with.
  pub apply_at_path-other :
      (resource result : Record Num) (head : Text) (rest : List Text)
      (filter : Option (FilterNode Num)) (sub : Option Text) (kind : OpKind) (v : Value Num)
      (k : Text)
      → text_eq head k ≡ false
      → apply_at_path platform resource (head ∷ rest) filter sub kind v ≡ ok result
      → get k result ≡ get k resource
  unfolding apply_at_path apply_at_leaf apply_filtered_op
  apply_at_path-other resource result [] rest filter sub kind v k h e = absurd (cc)
  apply_at_path-other resource result (c ∷ cs) [] none sub kind v k h e =
      let same : apply_simple_op resource (c ∷ cs) kind v ≡ result = cc in
      rw (← same) (apply_simple_op-other resource (c ∷ cs) k kind v h)
  apply_at_path-other resource result (c ∷ cs) [] (some filter) sub kind v k h e =
      insert-other (filtered_collection platform (get (c ∷ cs) resource) filter sub kind v)
        (λ vs. array_of vs) resource result (c ∷ cs) k h e
  apply_at_path-other resource result (c ∷ cs) (next ∷ rest) filter sub kind v k h e =
      insert-other
        (apply_at_path platform (child_object (get (c ∷ cs) resource)) (next ∷ rest) filter sub kind
          v)
        (λ u. object_of u) resource result (c ∷ cs) k h e

  -- Along a path of non-empty segments and without a filter an operation always succeeds. Behind it
  -- the path leads to the given value after `replace`, and to nothing but what every object inherits
  -- after `remove`. After `add`, a given array stands behind the items of an old one, any other given
  -- value but `undefined` is a last item of an old array, `undefined` replaces an old array, a given
  -- object is merged into an old one, and in all other cases the given value takes the old one's place.
  pub apply_at_path-value_at :
      (resource : Record Num) (head : Text) (rest : List Text) (sub : Option Text) (kind : OpKind)
      (v : Value Num)
      → All IsFilled (head ∷ rest)
      → (result : Record Num) × (apply_at_path platform resource (head ∷ rest) none sub kind v
          ≡ ok result)
        × (value_at (head ∷ rest) (object_of result)
            ≡ written kind (last_segment head rest) (value_at (head ∷ rest) (object_of resource)) v)
  unfolding apply_at_path apply_at_leaf
  apply_at_path-value_at resource [] rest sub kind v (f, fs) = absurd f
  apply_at_path-value_at resource (c ∷ cs) [] sub kind v (f, fs) =
      let result = apply_simple_op resource (c ∷ cs) kind v in
      (
        result,
        refl,
        rw (child-object_of result, child-object_of resource)
            (apply_simple_op-written resource (c ∷ cs) kind v),
      )
  apply_at_path-value_at resource (c ∷ cs) (next ∷ rest) sub kind v (f, fs) =
      let head = c ∷ cs in
      let (inner, e, w) =
        apply_at_path-value_at (child_object (get head resource)) next rest sub kind v fs in
      let result = insert head (object_of inner) resource in
      let read : get head (child_object (object_of result)) ≡ object_of inner =
        ap (get head) (child-object_of result) ∙ get-insert head (object_of inner) resource in
      (
        result,
        rw e refl,
        ap (value_at (next ∷ rest)) read
            ∙ w
            ∙ rw (child-object_of resource, child-object_of (child_object (get head resource)))
                refl,
      )
