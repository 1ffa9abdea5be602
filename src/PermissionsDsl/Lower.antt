-- ===== src/PermissionsDsl/Lower.antt =====
-- packages/permissions-dsl/src/lower.ts: the checks of a parsed file and its translation.
pub mod Meaning
pub mod Refers
pub mod Checked
pub mod Translated
mod Tests
use server_kit.Base.{
  ℕ, Text, codes, text_eq, contains, insert, is_some, Result, ok, err, ◌>>=◌, ◌>>◌, for_each, guard,
  some_of, Bool, true, false, not, ◌||◌, if◌then◌else◌, List, [], ◌∷◌, ◌++◌, map, Option, some,
  none,
}
use server_kit.Permissions.Tuple.{is_name}
use server_kit.Permissions.Model
use server_kit.Permissions.Model.{
  UsersetExpr, Children, no_children, child, computed, tuple_to_userset, RelationDef, NamespaceDef,
  ModelError, AuthorizationModel, construct,
}
use server_kit.PermissionsDsl.Ast.{
  SourceSpan, ExprNode, ref, ttu, union, intersection, exclusion, Exprs, no_exprs, expr,
  SubjectTypeNode, MemberNode, relation, permission, NamespaceNode, FileNode,
}

-- What a CompileError says, beside its place.
pub data LowerError : Type 0 where
  bad_namespace_name reserved_namespace_name duplicate_namespace : LowerError
  bad_member_name duplicate_relation duplicate_permission relation_and_permission : LowerError
  unknown_reference unknown_tuple_relation unresolved_computed no_child : LowerError
  unknown_subject_namespace unknown_subject_relation : LowerError
  model_rejected : ModelError → LowerError

abbrev pub CompileError : Type 0
CompileError = SourceSpan × LowerError

abbrev Checked : Type 0
Checked = Result CompileError (Unit {0})

subject_to_string : SubjectTypeNode → Text
subject_to_string s = elim (s.relation) [
  | some rel ↦ s.namespace ++ b'.' ∷ rel
  | none ↦ if s.wildcard then s.namespace ++ codes ".*" else s.namespace
]

mutual
  pub lower_expr : ExprNode → UsersetExpr
  lower_expr (ref loc name) = computed name
  lower_expr (ttu loc tr cr) = tuple_to_userset tr cr
  lower_expr (union loc es) = Model.union (lower_children es)
  lower_expr (intersection loc es) = Model.intersection (lower_children es)
  lower_expr (exclusion loc base subtract) = Model.exclusion (lower_expr base) (lower_expr subtract)

  lower_children : Exprs → Children
  lower_children no_exprs = no_children
  lower_children (expr e es) = child (lower_expr e) (lower_children es)

-- The loop of lowerNamespace.
lower_members : NamespaceDef → List MemberNode → NamespaceDef
lower_members def [] = def
lower_members def (relation name loc subjects ∷ ms) =
    lower_members
      (record def {
        relations =
            insert name (record { subjects = map subject_to_string subjects }) def.relations;
      })
      ms
lower_members def (permission name loc e ∷ ms) =
    lower_members (record def { permissions = insert name (lower_expr e) def.permissions }) ms

pub lower_namespace : NamespaceNode → NamespaceDef
lower_namespace ns =
    lower_members (record { name = ns.name; relations = []; permissions = [] }) ns.members

abbrev pub reserved_namespace_names : List Text
reserved_namespace_names =
    codes "await"
    ∷ codes "break"
    ∷ codes "case"
    ∷ codes "catch"
    ∷ codes "class"
    ∷ codes "const"
    ∷ codes "continue"
    ∷ codes "debugger"
    ∷ codes "default"
    ∷ codes "delete"
    ∷ codes "do"
    ∷ codes "else"
    ∷ codes "enum"
    ∷ codes "export"
    ∷ codes "extends"
    ∷ codes "false"
    ∷ codes "finally"
    ∷ codes "for"
    ∷ codes "function"
    ∷ codes "if"
    ∷ codes "implements"
    ∷ codes "import"
    ∷ codes "in"
    ∷ codes "instanceof"
    ∷ codes "interface"
    ∷ codes "let"
    ∷ codes "new"
    ∷ codes "null"
    ∷ codes "package"
    ∷ codes "private"
    ∷ codes "protected"
    ∷ codes "public"
    ∷ codes "return"
    ∷ codes "static"
    ∷ codes "super"
    ∷ codes "switch"
    ∷ codes "this"
    ∷ codes "throw"
    ∷ codes "true"
    ∷ codes "try"
    ∷ codes "typeof"
    ∷ codes "var"
    ∷ codes "void"
    ∷ codes "while"
    ∷ codes "with"
    ∷ codes "yield"
    ∷ codes "defineNamespace"
    ∷ codes "computed"
    ∷ codes "tupleToUserset"
    ∷ codes "union"
    ∷ codes "intersection"
    ∷ codes "exclusion"
    ∷ codes "model"
    ∷ []

pub is_reserved : Text → Bool
is_reserved name = contains name reserved_namespace_names

-- The loop of validateLocal over the members, with the relations and permissions seen.
local_members : List Text → List Text → List MemberNode → Checked
local_members relations permissions [] = ok tt
local_members relations permissions (relation name loc subjects ∷ ms) =
    guard (is_name name) (loc, bad_member_name)
    >> guard (not (contains name relations)) (loc, duplicate_relation)
    >> guard (not (contains name permissions)) (loc, relation_and_permission)
    >> local_members (name ∷ relations) permissions ms
local_members relations permissions (permission name loc e ∷ ms) =
    guard (is_name name) (loc, bad_member_name)
    >> guard (not (contains name permissions)) (loc, duplicate_permission)
    >> guard (not (contains name relations)) (loc, relation_and_permission)
    >> local_members relations (name ∷ permissions) ms

-- The loop of validateLocal over the namespaces, with the names seen.
pub validate_local : List Text → List NamespaceNode → Checked
validate_local seen [] = ok tt
validate_local seen (ns ∷ rest) =
    guard (is_name ns.name) (ns.name_loc, bad_namespace_name)
    >> guard (not (is_reserved ns.name)) (ns.name_loc, reserved_namespace_name)
    >> guard (not (contains ns.name seen)) (ns.name_loc, duplicate_namespace)
    >> local_members [] [] ns.members
    >> validate_local (ns.name ∷ seen) rest

abbrev pub member_name : MemberNode → Text
member_name (relation name loc subjects) = name
member_name (permission name loc e) = name

declares : Text → List MemberNode → Bool
declares name ms = some_of (λ m. text_eq (member_name m) name) ms

find_relation : Text → List MemberNode → Option (List SubjectTypeNode)
find_relation name [] = none
find_relation name (permission k loc e ∷ ms) = find_relation name ms
find_relation name (relation k loc subjects ∷ ms) =
    if text_eq k name then some subjects else find_relation name ms

-- `nsByName.get(name)`: the names are distinct once validateLocal has passed.
find_node : Text → List NamespaceNode → Option NamespaceNode
find_node name [] = none
find_node name (ns ∷ rest) = if text_eq ns.name name then some ns else find_node name rest

module _ (file : List NamespaceNode) where
  check_ref : NamespaceNode → SourceSpan → Text → Checked
  check_ref ns loc name = guard (declares name ns.members) (loc, unknown_reference)

  walks_to : Text → SubjectTypeNode → Bool
  walks_to computed_relation s = elim (s.relation) [
    | some rel ↦ false
    | none ↦ elim (find_node (s.namespace) file) [
      | none ↦ false
      | some target ↦ declares computed_relation target.members
    ]
  ]

  check_ttu : NamespaceNode → SourceSpan → Text → Text → Checked
  check_ttu ns loc tr cr = elim (find_relation tr ns.members) [
    | none ↦ err (loc, unknown_tuple_relation)
    | some subjects ↦ guard (some_of (walks_to cr) subjects) (loc, unresolved_computed)
  ]

  abbrev is_empty : Exprs → Bool
  is_empty no_exprs = true
  is_empty (expr e es) = false

  mutual
    check_expr_refs : NamespaceNode → ExprNode → Checked
    check_expr_refs ns (ref loc name) = check_ref ns loc name
    check_expr_refs ns (ttu loc tr cr) = check_ttu ns loc tr cr
    check_expr_refs ns (union loc es) =
        guard (not (is_empty es)) (loc, no_child) >> check_all_refs ns es
    check_expr_refs ns (intersection loc es) =
        guard (not (is_empty es)) (loc, no_child) >> check_all_refs ns es
    check_expr_refs ns (exclusion loc base subtract) =
        check_expr_refs ns base >> check_expr_refs ns subtract

    check_all_refs : NamespaceNode → Exprs → Checked
    check_all_refs ns no_exprs = ok tt
    check_all_refs ns (expr e es) = check_expr_refs ns e >> check_all_refs ns es

  -- A subject names a known namespace, and its relation, if it has one, a member of it.
  check_subject : SubjectTypeNode → Checked
  check_subject s = elim (find_node (s.namespace) file) [
    | none ↦ err (s.loc, unknown_subject_namespace)
    | some target ↦ elim (s.relation) [
      | none ↦ ok tt
      | some rel ↦ guard (declares rel target.members) (s.loc, unknown_subject_relation)
    ]
  ]

  check_member : NamespaceNode → MemberNode → Checked
  check_member ns (relation name loc subjects) = for_each check_subject subjects
  check_member ns (permission name loc e) = check_expr_refs ns e

  pub validate_refs : Checked
  validate_refs = for_each (λ ns. for_each (check_member ns) ns.members) file

-- The model, or the compile error that wraps its rejection.
pub with_model :
    SourceSpan
    → List NamespaceDef
    → Result ModelError AuthorizationModel
    → Result CompileError (List NamespaceDef × AuthorizationModel)
with_model loc namespaces (ok model) = ok (namespaces, model)
with_model loc namespaces (err e) = err (loc, model_rejected e)

build_model :
    SourceSpan → List NamespaceDef → Result CompileError (List NamespaceDef × AuthorizationModel)
build_model loc namespaces = with_model loc namespaces (construct namespaces)

pub lower : FileNode → Result CompileError (List NamespaceDef × AuthorizationModel)
lower file =
    validate_local [] (file.namespaces)
    >> validate_refs (file.namespaces)
    >> build_model (file.loc) (map lower_namespace (file.namespaces))
