-- ===== src/Permissions/Model.antt =====
-- packages/permissions/src/dsl.ts: userset expressions, namespaces and the validated model.
-- A record keyed by names is its entries in the order of Object.entries, with distinct keys.
pub mod WellFormed
mod Tests
use server_kit.Base.{
  ℕ, Text, codes, cut, strip_suffix, lookup, contains, is_some, Result, ok, err, ◌>>=◌, ◌>>◌,
  for_each, guard, Bool, true, false, not, ◌&&◌, ◌||◌, if◌then◌else◌, some_of, List, [], ◌∷◌, ◌++◌,
  Option, text_eq, some, none,
}
use server_kit.Permissions.Tuple.{is_name}

mutual
  pub data UsersetExpr : Type 0 where
    direct : UsersetExpr
    computed : (relation : Text) → UsersetExpr
    tuple_to_userset : (tuple_relation computed_relation : Text) → UsersetExpr
    union intersection : Children → UsersetExpr
    exclusion : (base subtract : UsersetExpr) → UsersetExpr

  pub data Children : Type 0 where
    no_children : Children
    child : UsersetExpr → Children → Children

-- The allowed subject types of a relation.
pub record RelationDef : Type 0 where
  pub subjects : List Text

pub record NamespaceDef : Type 0 where
  pub name : Text
  pub relations : List (Text × RelationDef)
  pub permissions : List (Text × UsersetExpr)

pub record SubjectType : Type 0 where
  pub namespace : Text
  pub relation : Option Text
  pub is_wildcard : Bool

unfoldable pub parse_subject_type : Text → SubjectType
parse_subject_type s = elim (strip_suffix (codes ".*") s) [
  | some ns ↦ record { namespace = ns; relation = none; is_wildcard = true }
  | none ↦ elim (cut b'.' s) [
    | some (ns, rel) ↦ record { namespace = ns; relation = some rel; is_wildcard = false }
    | none ↦ record { namespace = s; relation = none; is_wildcard = false }
  ]
]

-- The names that every plain object inherits: the `in` operator finds them too.
unfoldable pub is_inherited : Text → Bool
is_inherited k = contains k (
    codes "constructor"
    ∷ codes "toString"
    ∷ codes "valueOf"
    ∷ codes "hasOwnProperty"
    ∷ codes "isPrototypeOf"
    ∷ codes "propertyIsEnumerable"
    ∷ codes "toLocaleString"
    ∷ codes "__proto__"
    ∷ codes "__defineGetter__"
    ∷ codes "__defineSetter__"
    ∷ codes "__lookupGetter__"
    ∷ codes "__lookupSetter__"
    ∷ [])

-- `k in record`.
abbrev pub has {ℓ} : {V : Type ℓ} → Text → List (Text × V) → Bool
has k m = is_some (lookup k m) || is_inherited k

-- `byName.get(name)`.
abbrev pub find_namespace : Text → List NamespaceDef → Option NamespaceDef
find_namespace name [] = none
find_namespace name (ns ∷ rest) = if text_eq ns.name name then some ns else find_namespace name rest

-- One constructor for each throw; `type_error` is the one that reading an inherited property raises.
pub data ModelError : Type 0 where
  duplicate_namespace bad_namespace_name bad_relation_name malformed_subject_type : ModelError
  unknown_subject_namespace unknown_subject_relation bad_permission_name : ModelError
  relation_and_permission unknown_computed unknown_tuple_relation : ModelError
  undefined_computed_relation no_child type_error : ModelError
  unknown_namespace unknown_name : ModelError

-- The `byName` map of a model, in insertion order.
pub record AuthorizationModel : Type 0 where
  pub by_name : List NamespaceDef

-- `none` is a property inherited from Object.prototype, which is no expression.
unfoldable pub resolve : AuthorizationModel → Text → Text → Result ModelError (Option UsersetExpr)
resolve m namespace name = elim (find_namespace namespace m.by_name) [
  | none ↦ err unknown_namespace
  | some ns ↦ elim (lookup name ns.permissions) [
    | some e ↦ ok (some e)
    | none ↦
        if is_inherited name
        then ok none
        else if has name ns.relations
        then ok (some direct)
        else err unknown_name
  ]
]

-- The checks of a subject type against the namespace that it names.
validate_target : Option Text → Option NamespaceDef → Result ModelError (Unit {0})
validate_target rel none = err unknown_subject_namespace
validate_target none (some target) = ok tt
validate_target (some rel) (some target) = guard (has rel target.relations) unknown_subject_relation

module _ (by_name : List NamespaceDef) where
  validate_subject_type : Text → Result ModelError (Unit {0})
  validate_subject_type s =
      let parsed = parse_subject_type s in
      guard (is_name parsed.namespace) malformed_subject_type
      >> validate_target parsed.relation (find_namespace parsed.namespace by_name)

  validate_relations : NamespaceDef → Result ModelError (Unit {0})
  validate_relations ns =
      for_each
        (λ (rel, def).
          guard (is_name rel) bad_relation_name >> for_each validate_subject_type def.subjects)
        ns.relations

  -- A candidate namespace of a walk that defines the computed relation.
  candidate_defines : Text → Text → Bool
  candidate_defines cr s =
      let parsed = parse_subject_type s in
      not (is_some parsed.relation) && elim (find_namespace parsed.namespace by_name) [
        | none ↦ false
        | some target ↦ has cr target.relations || has cr target.permissions
      ]

  validate_walk : NamespaceDef → Text → Text → Result ModelError (Unit {0})
  validate_walk ns tr cr = elim (lookup tr ns.relations) [
    | none ↦ err (if is_inherited tr then type_error else unknown_tuple_relation)
    | some tuple_rel ↦
        guard (some_of (candidate_defines cr) tuple_rel.subjects) undefined_computed_relation
  ]

  abbrev is_empty : Children → Bool
  is_empty no_children = true
  is_empty (child e es) = false

  mutual
    validate_expr : NamespaceDef → UsersetExpr → Result ModelError (Unit {0})
    validate_expr ns direct = ok tt
    validate_expr ns (computed rel) =
        guard (has rel ns.relations || has rel ns.permissions) unknown_computed
    validate_expr ns (tuple_to_userset tr cr) = validate_walk ns tr cr
    validate_expr ns (union es) = guard (not (is_empty es)) no_child >> validate_children ns es
    validate_expr ns (intersection es) =
        guard (not (is_empty es)) no_child >> validate_children ns es
    validate_expr ns (exclusion base subtract) = validate_expr ns base >> validate_expr ns subtract

    validate_children : NamespaceDef → Children → Result ModelError (Unit {0})
    validate_children ns no_children = ok tt
    validate_children ns (child e es) = validate_expr ns e >> validate_children ns es

  validate_permissions : NamespaceDef → Result ModelError (Unit {0})
  validate_permissions ns =
      for_each
        (λ (perm, expr).
          guard (is_name perm) bad_permission_name
          >> guard (not (has perm ns.relations)) relation_and_permission
          >> validate_expr ns expr)
        ns.permissions

  validate_namespace : NamespaceDef → Result ModelError (Unit {0})
  validate_namespace ns =
      guard (is_name ns.name) bad_namespace_name >> validate_relations ns >> validate_permissions ns

  unfoldable pub validate : Result ModelError (Unit {0})
  unfolding validate_namespace validate_permissions validate_expr validate_children validate_walk
      candidate_defines validate_relations validate_subject_type validate_target
  validate = for_each validate_namespace by_name

-- The loop of the constructor that fills `byName`.
register : List NamespaceDef → List NamespaceDef → Result ModelError (List NamespaceDef)
register by_name [] = ok by_name
register by_name (ns ∷ rest) =
    guard (not (is_some (find_namespace ns.name by_name))) duplicate_namespace
    >> register (by_name ++ ns ∷ []) rest

-- `new AuthorizationModel(namespaces)`.
unfoldable pub construct : List NamespaceDef → Result ModelError AuthorizationModel
unfolding register
construct namespaces = do
  by_name ← register [] namespaces
  validate by_name
  ok (record { by_name = by_name })
