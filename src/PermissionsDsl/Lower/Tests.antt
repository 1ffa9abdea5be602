-- ===== src/PermissionsDsl/Lower/Tests.antt =====
-- Files that are translated, and one whose checks pass and whose model is rejected.
use server_kit.Base.{
  Text, codes, ok, err, map, true, false, List, [], ◌∷◌, Option, some, none, ◌≡◌, refl,
}
use server_kit.Permissions.Tuple.{is_name}
use mathlib.Core.List.{Memᴰ}
use server_kit.Permissions.Model.{
  UsersetExpr, resolve, NamespaceDef, AuthorizationModel, construct, parse_subject_type,
  is_inherited, validate, unknown_subject_relation,
}
use server_kit.PermissionsDsl.Ast.{
  SourceSpan, SubjectTypeNode, relation, permission, ref, NamespaceNode, FileNode,
}
use server_kit.PermissionsDsl.Lower.{
  subject_to_string, lower_expr, lower_members, lower_namespace, is_reserved, local_members,
  validate_local, declares, find_relation, find_node, check_ref, walks_to, check_ttu,
  check_expr_refs, check_subject, check_member, validate_refs, build_model, with_model, lower,
  model_rejected, reserved_namespace_name,
}
use server_kit.PermissionsDsl.Lower.Meaning.{allows, permits}
use server_kit.PermissionsDsl.Lower.Refers.{Refers}
use server_kit.PermissionsDsl.Lower.Translated.{lower-resolve}

opened : Unit {0}
unfolding construct is_name is_inherited parse_subject_type subject_to_string lower_expr
    lower_members lower_namespace is_reserved local_members validate_local declares find_relation
    find_node check_ref walks_to check_ttu check_expr_refs check_subject check_member validate_refs
    build_model with_model validate lower
opened = tt

abbrev nowhere : SourceSpan
nowhere = record { start = 0; end = 0 }

abbrev subject : Text → Option Text → SubjectTypeNode
subject ns rel = record { namespace = ns; relation = rel; wildcard = false; loc = nowhere }

abbrev namespace : Text → Text → List SubjectTypeNode → NamespaceNode
namespace name perm subjects = record {
  name = name;
  name_loc = nowhere;
  members =
      relation (codes "owner") nowhere subjects
      ∷ permission perm nowhere (ref nowhere (codes "owner"))
      ∷ [];
}

abbrev file : Text → Text → FileNode
file name rel = record {
  namespaces =
      record { name = codes "user"; name_loc = nowhere; members = [] }
      ∷ namespace name (codes "view") (subject (codes "user") none ∷ subject name (some rel) ∷ [])
      ∷ [];
  loc = nowhere;
}

reserved : lower (file (codes "class") (codes "owner")) ≡ err (nowhere, reserved_namespace_name)
unfolding opened
reserved = refl

-- A subject that names a permission passes the checks of the file, and the model rejects it.
permission_subject :
    lower (file (codes "doc") (codes "view"))
    ≡ err (nowhere, model_rejected unknown_subject_relation)
unfolding opened
permission_subject = refl

abbrev document : NamespaceNode
document =
    namespace (codes "doc") (codes "view")
      (subject (codes "user") none ∷ subject (codes "doc") (some (codes "owner")) ∷ [])

abbrev lowered : List NamespaceDef
lowered = map lower_namespace (file (codes "doc") (codes "owner")).namespaces

abbrev accepted : AuthorizationModel
accepted = record { by_name = lowered }

translated : lower (file (codes "doc") (codes "owner")) ≡ ok (lowered, accepted)
unfolding opened
translated = refl

lower-resolve_example :
    ((u : UsersetExpr) × (resolve accepted (codes "doc") (codes "view") ≡ ok (some u))
      × (permits (λ n. true) (λ tr cr. false) u
          ≡ allows (λ n. true) (λ tr cr. false) (ref nowhere (codes "owner"))))
    × Refers (file (codes "doc") (codes "owner")).namespaces document (ref nowhere (codes "owner"))
lower-resolve_example =
    lower-resolve (file (codes "doc") (codes "owner")) lowered accepted document (codes "view")
      nowhere (ref nowhere (codes "owner")) (λ n. true) (λ tr cr. false) translated
      (Memᴰ.tail (Memᴰ.head refl)) (Memᴰ.tail (Memᴰ.head refl))
