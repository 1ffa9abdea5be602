-- ===== src/Scim/Value.antt =====
-- The JavaScript values that a SCIM resource holds, as packages/scim/src/patch/patch.applier.ts reads
-- and builds them. A plain object is a record of own properties; reading a property that it lacks
-- finds the inherited one.
use server_kit.Base.{
  Text, codes, text_eq, lookup, if◌then◌else◌, List, [], ◌∷◌, Option, some, none, ◌≡◌, refl, ap,
}
use server_kit.Permissions.Model.{is_inherited}
use server_kit.Scim.Ast.{Literal}

mutual
  pub data Value (Num : Type 0) : Type 0 where
    undefined function : Value Num
    literal : Literal Num → Value Num
    array : Values Num → Value Num
    object : Fields Num → Value Num

  pub data Values (Num : Type 0) : Type 0 where
    no_values : Values Num
    value : Value Num → Values Num → Values Num

  pub data Fields (Num : Type 0) : Type 0 where
    no_fields : Fields Num
    field : Text → Value Num → Fields Num → Fields Num

-- `Record<string, unknown>`.
abbrev pub Record : Type 0 → Type 0
Record Num = List (Text × Value Num)

module _ {Num : Type 0} where
  abbrev pub items : Values Num → List (Value Num)
  items no_values = []
  items (value v vs) = v ∷ items vs

  abbrev pub from_items : List (Value Num) → Values Num
  from_items [] = no_values
  from_items (v ∷ vs) = value v (from_items vs)

  abbrev pub fields : Fields Num → Record Num
  fields no_fields = []
  fields (field k v fs) = (k, v) ∷ fields fs

  abbrev pub from_fields : Record Num → Fields Num
  from_fields [] = no_fields
  from_fields ((k, v) ∷ fs) = field k v (from_fields fs)

  abbrev pub array_of : List (Value Num) → Value Num
  array_of vs = array (from_items vs)

  abbrev pub object_of : Record Num → Value Num
  object_of r = object (from_fields r)

  pub items-from_items : (vs : List (Value Num)) → items (from_items vs) ≡ vs
  items-from_items [] = refl
  items-from_items (v ∷ vs) = ap (λ r. v ∷ r) (items-from_items vs)

  pub fields-from_fields : (r : Record Num) → fields (from_fields r) ≡ r
  fields-from_fields [] = refl
  fields-from_fields ((k, v) ∷ r) = ap (λ s. (k, v) ∷ s) (fields-from_fields r)

  -- `Array.isArray`, with the elements.
  abbrev pub as_array : Value Num → Option (List (Value Num))
  as_array (array vs) = some (items vs)
  as_array _ = none

  -- `isPlainObject`, with the properties.
  abbrev pub as_plain_object : Value Num → Option (Record Num)
  as_plain_object (object fs) = some (fields fs)
  as_plain_object _ = none

  -- What an object has by inheritance; its prototype is itself an object without properties of its
  -- own that a spread would copy.
  abbrev pub inherited : Text → Value Num
  inherited k =
      if text_eq k (codes "__proto__")
      then object no_fields
      else if is_inherited k
      then function
      else undefined

  -- `record[k]`.
  unfoldable pub get : Text → Record Num → Value Num
  get k r = elim (lookup k r) [ some v ↦ v | none ↦ inherited k ]
