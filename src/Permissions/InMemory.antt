-- ===== src/Permissions/InMemory.antt =====
-- packages/permissions/src/in.memory.repository.ts: the tuple store over a Map keyed by the
-- canonical text.
pub mod Keyed
pub mod Queries
pub mod Store
mod Tests
use server_kit.Base.{
  Text, text_eq, lookup, insert, erase, is_some, Bool, true, false, ◌&&◌, if◌then◌else◌, List, [],
  ◌∷◌, ◌++◌,
}
use server_kit.Permissions.Tuple.{
  ObjectRef, SubjectRef, concrete, wildcard, userset, RelationTuple, stringify_tuple,
}
use server_kit.Permissions.Repository.{TupleRepository}

pub record InMemoryTupleRepository : Type 0 where
  pub tuples : List (Text × RelationTuple)

unfoldable pub write : List RelationTuple → InMemoryTupleRepository → InMemoryTupleRepository
write [] r = r
write (t ∷ ts) r = write ts (record { tuples = insert (stringify_tuple t) t r.tuples })

unfoldable pub delete : List RelationTuple → InMemoryTupleRepository → InMemoryTupleRepository
delete [] r = r
delete (t ∷ ts) r = delete ts (record { tuples = erase (stringify_tuple t) r.tuples })

unfoldable pub clear : InMemoryTupleRepository → InMemoryTupleRepository
clear r = record { tuples = [] }

-- `new Map(seed.map(...))` sets the entries one by one.
unfoldable pub construct : List RelationTuple → InMemoryTupleRepository
unfolding write
construct seed = write seed (record { tuples = [] })

values : List (Text × RelationTuple) → List RelationTuple
values [] = []
values ((k, t) ∷ m) = t ∷ values m

unfoldable pub all : InMemoryTupleRepository → List RelationTuple
unfolding values
all r = values r.tuples

-- The test that both queries make of a tuple.
abbrev pub is_about : Text → Text → Text → RelationTuple → Bool
is_about namespace id relation t =
    text_eq t.object.namespace namespace && text_eq t.object.id id && text_eq t.relation relation

abbrev select : Text → Text → Text → List RelationTuple → List RelationTuple
select namespace id relation [] = []
select namespace id relation (t ∷ ts) =
    if is_about namespace id relation t
    then t ∷ select namespace id relation ts
    else select namespace id relation ts

unfoldable pub list_by_object_relation :
    InMemoryTupleRepository → Text → Text → Text → List RelationTuple
unfolding all
list_by_object_relation r namespace id relation = select namespace id relation (all r)

abbrev parent_of : SubjectRef → List ObjectRef
parent_of (concrete ns id) = record { namespace = ns; id = id } ∷ []
parent_of _ = []

abbrev select_parents : Text → Text → Text → List RelationTuple → List ObjectRef
select_parents namespace id relation [] = []
select_parents namespace id relation (t ∷ ts) =
    let rest = select_parents namespace id relation ts in
    if is_about namespace id relation t then parent_of t.subject ++ rest else rest

unfoldable pub list_objects_related_by :
    InMemoryTupleRepository → Text → Text → Text → List ObjectRef
unfolding all
list_objects_related_by r namespace id relation = select_parents namespace id relation (all r)

-- The store as the interface that the evaluator uses.
unfoldable pub as_repository : InMemoryTupleRepository → TupleRepository
unfolding list_by_object_relation list_objects_related_by
as_repository r = record {
  list_by_object_relation = list_by_object_relation r;
  list_objects_related_by = list_objects_related_by r;
}
