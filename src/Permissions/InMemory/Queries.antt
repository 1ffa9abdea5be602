-- ===== src/Permissions/InMemory/Queries.antt =====
-- What the two queries of the store return.
use server_kit.Base.{
  Text, text_eq, text_eq_iff, lookup, is_some, All-lookup, In, ◌⊎◌, true, Bool-cases, Option-cases,
  List, [], ◌∷◌, some, ◌≡◌, ◌↔◌, ap, sym, subst, inl, inr, arith,
}
use server_kit.Permissions.Tuple.{RelationTuple, tuple_ok, stringify_tuple}
use server_kit.Permissions.Tuple.Canonical.{stringify_tuple-injective}
use server_kit.Permissions.InMemory.{
  InMemoryTupleRepository, values, all, is_about, select, list_by_object_relation,
}
use server_kit.Permissions.InMemory.Keyed.{holds, IsKeyed}

module _ (ns id rel : Text) where
  In-select :
      (t : RelationTuple) (ts : List RelationTuple)
      → In t (select ns id rel ts)
      → In t ts × (is_about ns id rel t ≡ true)
  In-select t (u ∷ ts) h = elim (Bool-cases (is_about ns id rel u)) [
    | inl here ↦ elim (split here (rw here at h)) [
      | inl e ↦ (inl e, rw e here)
      | inr k ↦ let (a, b) = In-select t ts k in (inr a, b)
    ]
    | inr other ↦ let (a, b) = In-select t ts (rw other at h) in (inr a, b)
  ]
    where
      split :
          is_about ns id rel u ≡ true
          → In t (u ∷ select ns id rel ts)
          → (t ≡ u) ⊎ In t (select ns id rel ts)
      split _ k = k
  In-select t [] h = absurd h

  select_of_In :
      (t : RelationTuple) (ts : List RelationTuple)
      → is_about ns id rel t ≡ true
      → In t ts
      → In t (select ns id rel ts)
  select_of_In t [] h i = i
  select_of_In t (u ∷ ts) h (inl e) =
      let here : is_about ns id rel u ≡ true = subst (λ v. is_about ns id rel v ≡ true) e h in
      rw here (inl e)
  select_of_In t (u ∷ ts) h (inr i) = elim (Bool-cases (is_about ns id rel u)) [
    | inl here ↦ rw here (inr (select_of_In t ts h i))
    | inr other ↦ rw other (select_of_In t ts h i)
  ]

In-lookup :
    (k : Text) (m : List (Text × RelationTuple)) {t : RelationTuple}
    → lookup k m ≡ some t
    → In t (values m)
unfolding values
In-lookup k [] e = absurd (ground arith)
In-lookup k ((j, u) ∷ m) {t} e = elim (Bool-cases (text_eq j k)) [
  | inl same ↦ inl (ground arith)
  | inr other ↦ inr (In-lookup k m (rw other at e))
]

lookup_of_In :
    (t : RelationTuple) (m : List (Text × RelationTuple))
    → IsKeyed (record { tuples = m })
    → In t (values m)
    → is_some (lookup (stringify_tuple t) m) ≡ true
unfolding values
lookup_of_In t [] h i = absurd i
lookup_of_In t ((j, u) ∷ m) ((key, valid), h) (inl e) =
    ground (arith, text_eq_iff j (stringify_tuple t), ap stringify_tuple e)
lookup_of_In t ((j, u) ∷ m) (p, h) (inr i) = ground (arith, lookup_of_In t m h i)

-- A stored tuple is one of the values, and the other way round.
pub all_iff :
    (t : RelationTuple) (r : InMemoryTupleRepository)
    → tuple_ok t ≡ true
    → IsKeyed r
    → In t (all r) ↔ (holds r t ≡ true)
unfolding all
all_iff t r h k = (lookup_of_In t r.tuples k, back)
  where
    back : holds r t ≡ true → In t (values r.tuples)
    back e = elim (Option-cases (lookup (stringify_tuple t) r.tuples)) [
      | inl missing ↦ absurd (ground arith)
      | inr (u, found) ↦
          let (key, valid) =
            All-lookup (λ (j, v). (j ≡ stringify_tuple v) × (tuple_ok v ≡ true)) (stringify_tuple t)
              r.tuples k found in
          let same = stringify_tuple-injective t u h valid key in
          subst (λ v. In v (values r.tuples)) (sym same)
            (In-lookup (stringify_tuple t) r.tuples found)
    ]

-- On a keyed store the query by object and relation returns a valid tuple exactly if the store
-- holds it and it is about that object and relation.
pub list_by_object_relation_iff :
    (r : InMemoryTupleRepository) (ns id rel : Text) (t : RelationTuple)
    → IsKeyed r
    → tuple_ok t ≡ true
    → In t (list_by_object_relation r ns id rel)
      ↔ ((holds r t ≡ true) × (t.object.namespace ≡ ns) × (t.object.id ≡ id) × (t.relation ≡ rel))
unfolding list_by_object_relation
list_by_object_relation_iff r ns id rel t k h = (to, from)
  where
    to :
        In t (select ns id rel (all r))
        → (holds r t ≡ true) × (t.object.namespace ≡ ns) × (t.object.id ≡ id) × (t.relation ≡ rel)
    to i =
        let (a, b) = In-select ns id rel t (all r) i in
        (
          (all_iff t r h k).0 a,
          ground (arith, text_eq_iff t.object.namespace ns),
          ground (arith, text_eq_iff t.object.id id),
          ground (arith, text_eq_iff t.relation rel),
        )

    from :
        (holds r t ≡ true) × (t.object.namespace ≡ ns) × (t.object.id ≡ id) × (t.relation ≡ rel)
        → In t (select ns id rel (all r))
    from (a, b, c, d) =
        select_of_In ns id rel t (all r)
          (ground (
            arith,
            text_eq_iff t.object.namespace ns,
            text_eq_iff t.object.id id,
            text_eq_iff t.relation rel,
          ))
          ((all_iff t r h k).1 a)
