-- ===== src/Scim/Patch/Operations/Items.antt =====
-- What an operation with a filter makes of one item, by the shape of the value and of the item.
use server_kit.Base.{Text, codes, insert, [], ◌∷◌, Option, some, none, ◌≡◌, refl, ap}
use server_kit.Scim.Value.{
  Value, Fields, no_fields, field, undefined, function, literal, array, object, fields, from_fields,
  object_of, as_plain_object,
}
use server_kit.Scim.Patch.Operations.{
  OpKind, add, replace, remove, change_item, change_object, seed,
}
use server_kit.Scim.Patch.Operations.Frame.{union, merge-union}

module _ {Num : Type 0} where
  from_fields-fields : (fs : Fields Num) → from_fields (fields fs) ≡ fs
  from_fields-fields no_fields = refl
  from_fields-fields (field k v fs) = ap (λ rest. field k v rest) (from_fields-fields fs)

  object_of-fields : (fs : Fields Num) → object_of (fields fs) ≡ object fs
  object_of-fields fs = ap (λ rest. object rest) (from_fields-fields fs)

  -- What an operation that removes nothing makes of an object that passes: the sub-attribute is set to
  -- the value, or an object is merged in, or else the value replaces it or, for `add`, changes nothing.
  abbrev pub object_after : OpKind → Option Text → Value Num → Fields Num → Value Num
  object_after kind (some sub) v fs = object_of (insert sub v (fields fs))
  object_after kind none (object gs) fs = object_of (union (fields fs) (fields gs))
  object_after replace none v fs = v
  object_after kind none v fs = object fs

  -- An item that is no object stays.
  abbrev pub item_after : OpKind → Option Text → Value Num → Value Num → Value Num
  item_after kind sub v (object fs) = object_after kind sub v fs
  item_after kind sub v other = other

  change_object-object_after :
      (kind : OpKind) (v : Value Num) (fs : Fields Num)
      → change_object kind none v (fields fs) ≡ object_after kind none v fs
  unfolding change_object as_plain_object
  change_object-object_after kind (object gs) fs =
      ap object_of (merge-union (fields fs) (fields gs))
  change_object-object_after add undefined fs = object_of-fields fs
  change_object-object_after replace undefined fs = refl
  change_object-object_after remove undefined fs = object_of-fields fs
  change_object-object_after add function fs = object_of-fields fs
  change_object-object_after replace function fs = refl
  change_object-object_after remove function fs = object_of-fields fs
  change_object-object_after add (literal l) fs = object_of-fields fs
  change_object-object_after replace (literal l) fs = refl
  change_object-object_after remove (literal l) fs = object_of-fields fs
  change_object-object_after add (array vs) fs = object_of-fields fs
  change_object-object_after replace (array vs) fs = refl
  change_object-object_after remove (array vs) fs = object_of-fields fs

  pub change_item-item_after :
      (kind : OpKind) (sub : Option Text) (v item : Value Num)
      → change_item kind sub v item ≡ item_after kind sub v item
  unfolding change_item change_object
  change_item-item_after kind (some sub) v (object fs) = refl
  change_item-item_after kind none v (object fs) = change_object-object_after kind v fs
  change_item-item_after kind sub v undefined = refl
  change_item-item_after kind sub v function = refl
  change_item-item_after kind sub v (literal l) = refl
  change_item-item_after kind sub v (array vs) = refl

  -- The item that `add` starts when none passes.
  abbrev pub new_item : Value Num → Value Num
  new_item (object fs) = object fs
  new_item v = object_of ((codes "value", v) ∷ [])

  pub seed-new_item : (v : Value Num) → seed v ≡ new_item v
  unfolding seed
  seed-new_item (object fs) = refl
  seed-new_item undefined = refl
  seed-new_item function = refl
  seed-new_item (literal l) = refl
  seed-new_item (array vs) = refl
