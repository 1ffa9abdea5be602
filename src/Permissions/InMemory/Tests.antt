-- ===== src/Permissions/InMemory/Tests.antt =====
-- The laws of the store at concrete tuples.
use server_kit.Base.{codes, In, true, not, ◌&&◌, ◌||◌, [], ◌∷◌, ◌≡◌, ◌↔◌, refl}
use server_kit.Permissions.Tuple.{
  RelationTuple, is_name, is_id, object_ok, subject_ok, tuple_ok, format_subject, stringify_tuple,
}
use server_kit.Permissions.InMemory.{
  InMemoryTupleRepository, write, delete, construct, list_by_object_relation,
  list_objects_related_by,
}
use server_kit.Permissions.InMemory.Keyed.{holds, listed, IsKeyed, write-union, delete-difference}
use server_kit.Permissions.InMemory.Queries.{list_by_object_relation_iff}
use server_kit.Permissions.InMemory.Store.{list_objects_related_by_iff}
use server_kit.Permissions.Sample.{owned, user_parent, alice_object}

opened : Unit {0}
unfolding is_name is_id object_ok subject_ok tuple_ok format_subject stringify_tuple construct
opened = tt

abbrev store : InMemoryTupleRepository
store = construct (owned ∷ user_parent ∷ owned ∷ [])

store-IsKeyed : IsKeyed store
unfolding opened
store-IsKeyed = ((refl, refl), ((refl, refl), tt))

write-union_example :
    IsKeyed (write (owned ∷ []) store)
    × ((t : RelationTuple)
        → holds (write (owned ∷ []) store) t ≡ (listed t (owned ∷ []) || holds store t))
unfolding opened
write-union_example = write-union (owned ∷ []) store (refl, tt) store-IsKeyed

delete-difference_example :
    IsKeyed (delete (owned ∷ []) store)
    × ((t : RelationTuple)
        → holds (delete (owned ∷ []) store) t ≡ (not (listed t (owned ∷ [])) && holds store t))
delete-difference_example = delete-difference (owned ∷ []) store store-IsKeyed

list_by_object_relation_iff_example :
    In owned (list_by_object_relation store (codes "doc") (codes "readme") (codes "owner")) ↔ (
      (holds store owned ≡ true)
      × (codes "doc" ≡ codes "doc")
      × (codes "readme" ≡ codes "readme")
      × (codes "owner" ≡ codes "owner"))
unfolding opened
list_by_object_relation_iff_example =
    list_by_object_relation_iff store (codes "doc") (codes "readme") (codes "owner") owned
      store-IsKeyed refl

list_objects_related_by_iff_example :
    In alice_object (list_objects_related_by store (codes "doc") (codes "readme") (codes "parent"))
    ↔ (holds store user_parent ≡ true)
unfolding opened
list_objects_related_by_iff_example =
    list_objects_related_by_iff (codes "doc") (codes "readme") (codes "parent") alice_object store
      store-IsKeyed refl
