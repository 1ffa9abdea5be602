-- ===== src/Permissions/InMemory/Keyed.antt =====
-- The store as a finite set of valid tuples.
use server_kit.Base.{
  Text, text_eq, lookup, insert, erase, lookup-insert, lookup-erase, is_some, All, Bool, true, not,
  ◌&&◌, ◌||◌, Bool-cases, List, [], ◌∷◌, some_of, ◌≡◌, refl, inl, inr, arith,
}
use server_kit.Permissions.Tuple.{RelationTuple, tuple_ok, stringify_tuple}
use server_kit.Permissions.InMemory.{InMemoryTupleRepository, write, delete}

-- Whether the store holds a tuple, and whether a list does.
abbrev pub holds : InMemoryTupleRepository → RelationTuple → Bool
holds r t = is_some (lookup (stringify_tuple t) r.tuples)

abbrev pub listed : RelationTuple → List RelationTuple → Bool
listed t ts = some_of (λ u. text_eq (stringify_tuple u) (stringify_tuple t)) ts

-- Every entry is keyed by the text of its tuple, which is valid.
abbrev pub IsKeyed : InMemoryTupleRepository → Type 0
IsKeyed r = All (λ (k, t). (k ≡ stringify_tuple t) × (tuple_ok t ≡ true)) r.tuples

insert-IsKeyed :
    (t : RelationTuple) (m : List (Text × RelationTuple))
    → tuple_ok t ≡ true
    → IsKeyed (record { tuples = m })
    → IsKeyed (record { tuples = insert (stringify_tuple t) t m })
insert-IsKeyed t [] h i = ((refl, h), tt)
insert-IsKeyed t ((j, u) ∷ m) h (p, i) = elim (Bool-cases (text_eq j (stringify_tuple t))) [
  | inl same ↦ rw same ((refl, h), i)
  | inr other ↦ rw other (p, insert-IsKeyed t m h i)
]

erase-IsKeyed :
    (k : Text) (m : List (Text × RelationTuple))
    → IsKeyed (record { tuples = m })
    → IsKeyed (record { tuples = erase k m })
erase-IsKeyed k [] i = tt
erase-IsKeyed k ((j, u) ∷ m) (p, i) = elim (Bool-cases (text_eq j k)) [
  | inl same ↦ rw same (erase-IsKeyed k m i)
  | inr other ↦ rw other (p, erase-IsKeyed k m i)
]

pub write-IsKeyed :
    (ts : List RelationTuple) (r : InMemoryTupleRepository)
    → All (λ t. tuple_ok t ≡ true) ts
    → IsKeyed r
    → IsKeyed (write ts r)
unfolding write
write-IsKeyed [] r h i = i
write-IsKeyed (t ∷ ts) r (h, hs) i =
    write-IsKeyed ts (record { tuples = insert (stringify_tuple t) t r.tuples }) hs
      (insert-IsKeyed t r.tuples h i)

pub delete-IsKeyed :
    (ts : List RelationTuple) (r : InMemoryTupleRepository) → IsKeyed r → IsKeyed (delete ts r)
unfolding delete
delete-IsKeyed [] r i = i
delete-IsKeyed (t ∷ ts) r i =
    delete-IsKeyed ts (record { tuples = erase (stringify_tuple t) r.tuples })
      (erase-IsKeyed (stringify_tuple t) r.tuples i)

holds-write :
    (ts : List RelationTuple) (r : InMemoryTupleRepository) (t : RelationTuple)
    → holds (write ts r) t ≡ (listed t ts || holds r t)
unfolding write
holds-write [] r t = refl
holds-write (u ∷ ts) r t =
    let r' : InMemoryTupleRepository = record { tuples = insert (stringify_tuple u) u r.tuples } in
    ground
      (arith, holds-write ts r' t, lookup-insert (stringify_tuple u) (stringify_tuple t) u r.tuples)

holds-delete :
    (ts : List RelationTuple) (r : InMemoryTupleRepository) (t : RelationTuple)
    → holds (delete ts r) t ≡ (not (listed t ts) && holds r t)
unfolding delete
holds-delete [] r t = refl
holds-delete (u ∷ ts) r t =
    let r' : InMemoryTupleRepository = record { tuples = erase (stringify_tuple u) r.tuples } in
    ground
      (arith, holds-delete ts r' t, lookup-erase (stringify_tuple u) (stringify_tuple t) r.tuples)

-- Writing valid tuples keeps the store keyed by their texts, and the store holds afterwards what was
-- written and what it held.
pub write-union :
    (ts : List RelationTuple) (r : InMemoryTupleRepository)
    → All (λ t. tuple_ok t ≡ true) ts
    → IsKeyed r
    → IsKeyed (write ts r)
      × ((t : RelationTuple) → holds (write ts r) t ≡ (listed t ts || holds r t))
write-union ts r h i = (write-IsKeyed ts r h i, holds-write ts r)

-- Deleting keeps the store keyed, and it holds afterwards what it held and was not deleted.
pub delete-difference :
    (ts : List RelationTuple) (r : InMemoryTupleRepository)
    → IsKeyed r
    → IsKeyed (delete ts r)
      × ((t : RelationTuple) → holds (delete ts r) t ≡ (not (listed t ts) && holds r t))
delete-difference ts r i = (delete-IsKeyed ts r i, holds-delete ts r)
