-- ===== src/Permissions/Model/Tests.antt =====
-- Runs of the model's constructor, and its theorem at a concrete model.
use server_kit.Base.{codes, ok, err, [], ◌∷◌, none, ◌≡◌, refl}
use server_kit.Permissions.Tuple.{is_name}
use server_kit.Permissions.Model.{
  direct, computed, is_inherited, parse_subject_type, resolve, relation_and_permission,
  unknown_name, validate_target, validate_subject_type, validate_relations, candidate_defines,
  validate_walk, validate_expr, validate_permissions, validate_namespace, validate, construct,
}
use server_kit.Permissions.Model.WellFormed.{IsSound, construct-IsSound}
use server_kit.Permissions.Sample.{docs, namespaces, model}

opened : Unit {0}
unfolding is_name is_inherited parse_subject_type resolve validate_target validate_subject_type
    validate_relations candidate_defines validate_walk validate_expr validate_permissions
    validate_namespace validate construct
opened = tt

-- The `in` operator finds the names that every object inherits: `toString` passes as a reference,
-- and a permission may not be called `constructor`.
inherited_names :
    (construct (
        record {
          name = codes "doc";
          relations = [];
          permissions = (codes "view", computed (codes "toString")) ∷ [];
        }
        ∷ [])
      ≡ ok (record {
        by_name =
            record {
              name = codes "doc";
              relations = [];
              permissions = (codes "view", computed (codes "toString")) ∷ [];
            }
            ∷ [];
      }))
    × (construct (
          record {
            name = codes "doc";
            relations = [];
            permissions = (codes "constructor", direct) ∷ [];
          }
          ∷ [])
        ≡ err relation_and_permission)
    × (resolve model (codes "doc") (codes "toString") ≡ ok none)
    × (resolve model (codes "doc") (codes "delete") ≡ err unknown_name)
unfolding opened
inherited_names = (refl, refl, refl, refl)

construct-IsSound_example : (model.by_name ≡ namespaces) × IsSound model (codes "doc") docs
unfolding opened
construct-IsSound_example = construct-IsSound namespaces model (codes "doc") docs refl refl
