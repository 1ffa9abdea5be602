-- ===== src/Permissions/Repository.antt =====
-- packages/permissions/src/tuples.repository.ts: what the Check evaluator reads of a tuple store.
use server_kit.Base.{Text, List}
use server_kit.Permissions.Tuple.{ObjectRef, RelationTuple}

-- The two queries. A store that fails is not modelled.
pub record TupleRepository : Type 0 where
  pub list_by_object_relation : (namespace id relation : Text) → List RelationTuple
  pub list_objects_related_by : (namespace id relation : Text) → List ObjectRef
