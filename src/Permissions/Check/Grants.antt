-- ===== src/Permissions/Check/Grants.antt =====
-- What a model and the stored tuples support: a derivation of an access. No rule derives an exclusion,
-- so the models that derivations are for have none.
use server_kit.Base.{Text, ok, true, some, ◌≡◌}
use mathlib.Core.List.{Memᴰ}
use server_kit.Permissions.Tuple.{ObjectRef, SubjectRef, userset, RelationTuple}
use server_kit.Permissions.Model.{
  AuthorizationModel, UsersetExpr, direct, computed, tuple_to_userset, union, intersection,
  Children, no_children, child, resolve,
}
use server_kit.Permissions.Repository.{TupleRepository}
use server_kit.Permissions.Check.{matches}

module _ (m : AuthorizationModel) (repo : TupleRepository) (subject : SubjectRef) where
  mutual
    pub data Grants : ObjectRef → Text → Type 0 where
      by :
          {o : ObjectRef} {rel : Text} (e : UsersetExpr)
          → resolve m o.namespace rel ≡ ok (some e)
          → Holds o rel e
          → Grants o rel

    pub data Holds : ObjectRef → Text → UsersetExpr → Type 0 where
      stored :
          {o : ObjectRef} {rel : Text} (t : RelationTuple)
          → Memᴰ t (repo.list_by_object_relation o.namespace o.id rel)
          → matches subject t.subject ≡ true
          → Holds o rel direct
      member :
          {o : ObjectRef} {rel : Text} (t : RelationTuple) (ns id r : Text)
          → Memᴰ t (repo.list_by_object_relation o.namespace o.id rel)
          → t.subject ≡ userset ns id r
          → Grants (record { namespace = ns; id = id }) r
          → Holds o rel direct
      rewritten : {o : ObjectRef} {rel r : Text} → Grants o r → Holds o rel (computed r)
      walked :
          {o : ObjectRef} {rel tr cr : Text} (p : ObjectRef)
          → Memᴰ p (repo.list_objects_related_by o.namespace o.id tr)
          → Grants p cr
          → Holds o rel (tuple_to_userset tr cr)
      some_branch :
          {o : ObjectRef} {rel : Text} {es : Children} → Any o rel es → Holds o rel (union es)
      each_branch :
          {o : ObjectRef} {rel : Text} {es : Children}
          → Each o rel es
          → Holds o rel (intersection es)

    pub data Any : ObjectRef → Text → Children → Type 0 where
      first :
          {o : ObjectRef} {rel : Text} {e : UsersetExpr} {es : Children}
          → Holds o rel e
          → Any o rel (child e es)
      later :
          {o : ObjectRef} {rel : Text} {e : UsersetExpr} {es : Children}
          → Any o rel es
          → Any o rel (child e es)

    pub data Each : ObjectRef → Text → Children → Type 0 where
      done : {o : ObjectRef} {rel : Text} → Each o rel no_children
      more :
          {o : ObjectRef} {rel : Text} {e : UsersetExpr} {es : Children}
          → Holds o rel e
          → Each o rel es
          → Each o rel (child e es)
