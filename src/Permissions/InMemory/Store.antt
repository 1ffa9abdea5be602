-- ===== src/Permissions/InMemory/Store.antt =====
-- The parents that the store returns, and that a keyed store is valid for the evaluator.
use server_kit.Base.{
  Text, text_eq_iff, All, In, In-append, append_left, append_right, true, Bool-cases, List, [], ◌∷◌,
  ◌++◌, ◌≡◌, ◌↔◌, refl, subst, inl, inr, arith,
}
use server_kit.Permissions.Tuple.{
  ObjectRef, SubjectRef, concrete, wildcard, userset, RelationTuple, object_ok, subject_ok,
  tuple_ok,
}
use server_kit.Permissions.InMemory.{
  InMemoryTupleRepository, values, all, is_about, select, parent_of, select_parents,
  list_objects_related_by, as_repository,
}
use server_kit.Permissions.InMemory.Keyed.{holds, IsKeyed}
use server_kit.Permissions.InMemory.Queries.{all_iff}
use server_kit.Permissions.Check.Soundness.{IsValidStore}

-- The tuple that makes `p` a parent.
abbrev pub edge : Text → Text → Text → ObjectRef → RelationTuple
edge ns id rel p = record {
  object = record { namespace = ns; id = id };
  relation = rel;
  subject = concrete p.namespace p.id;
}

module _ (ns id rel : Text) (p : ObjectRef) where
  parent_of-In :
      (t : RelationTuple) (s : SubjectRef)
      → t.subject ≡ s
      → is_about ns id rel t ≡ true
      → In p (parent_of s)
      → edge ns id rel p ≡ t
  parent_of-In t (concrete a b) e h (inl i) = ground (
    arith,
    text_eq_iff t.object.namespace ns,
    text_eq_iff t.object.id id,
    text_eq_iff t.relation rel,
  )
  parent_of-In t (concrete a b) e h (inr i) = absurd i
  parent_of-In t (wildcard a) e h i = absurd i
  parent_of-In t (userset a b c) e h i = absurd i

  In-select_parents :
      (ts : List RelationTuple) → In p (select_parents ns id rel ts) → In (edge ns id rel p) ts
  In-select_parents [] i = i
  In-select_parents (t ∷ ts) i = elim (Bool-cases (is_about ns id rel t)) [
    | inl here ↦
        elim (In-append p (parent_of t.subject) (select_parents ns id rel ts) (rw here at i)) [
          | inl a ↦ inl (parent_of-In t t.subject refl here a)
          | inr b ↦ inr (In-select_parents ts b)
        ]
    | inr other ↦ inr (In-select_parents ts (rw other at i))
  ]

  about_edge : is_about ns id rel (edge ns id rel p) ≡ true
  about_edge = ground (arith, text_eq_iff ns ns, text_eq_iff id id, text_eq_iff rel rel)

  parents_of_In :
      (ts : List RelationTuple) → In (edge ns id rel p) ts → In p (select_parents ns id rel ts)
  parents_of_In [] i = i
  parents_of_In (t ∷ ts) (inl e) =
      let here : is_about ns id rel t ≡ true =
        subst (λ u. is_about ns id rel u ≡ true) e about_edge in
      let mine : In p (parent_of t.subject) =
        subst (λ (u : RelationTuple). In p (parent_of u.subject)) e (inl refl) in
      rw here (append_left p (parent_of t.subject) (select_parents ns id rel ts) mine)
  parents_of_In (t ∷ ts) (inr i) = elim (Bool-cases (is_about ns id rel t)) [
    | inl here ↦ rw here (append_right p (parent_of t.subject) _ (parents_of_In ts i))
    | inr other ↦ rw other (parents_of_In ts i)
  ]

  -- On a keyed store the parents over a relation are the objects whose edge the store holds.
  pub list_objects_related_by_iff :
      (r : InMemoryTupleRepository)
      → IsKeyed r
      → tuple_ok (edge ns id rel p) ≡ true
      → In p (list_objects_related_by r ns id rel) ↔ (holds r (edge ns id rel p) ≡ true)
  unfolding list_objects_related_by
  list_objects_related_by_iff r k h = (
    λ i. (all_iff (edge ns id rel p) r h k).0 (In-select_parents (all r) i),
    λ e. parents_of_In (all r) ((all_iff (edge ns id rel p) r h k).1 e),
  )

values-All :
    (m : List (Text × RelationTuple))
    → IsKeyed (record { tuples = m })
    → All (λ t. tuple_ok t ≡ true) (values m)
unfolding values
values-All [] h = tt
values-All ((k, t) ∷ m) ((_, v), h) = (v, values-All m h)

select-All :
    (ns id rel : Text) (ts : List RelationTuple)
    → All (λ t. tuple_ok t ≡ true) ts
    → All (λ t. tuple_ok t ≡ true) (select ns id rel ts)
select-All ns id rel [] h = tt
select-All ns id rel (t ∷ ts) (v, h) = elim (Bool-cases (is_about ns id rel t)) [
  | inl here ↦ rw here (v, select-All ns id rel ts h)
  | inr other ↦ rw other (select-All ns id rel ts h)
]

parent_of-All :
    (s : SubjectRef) (ps : List ObjectRef)
    → subject_ok s ≡ true
    → All (λ p. object_ok p ≡ true) ps
    → All (λ p. object_ok p ≡ true) (parent_of s ++ ps)
unfolding subject_ok object_ok
parent_of-All (concrete a b) ps h k = (h, k)
parent_of-All (wildcard a) ps h k = k
parent_of-All (userset a b c) ps h k = k

parents-All :
    (ns id rel : Text) (ts : List RelationTuple)
    → All (λ t. tuple_ok t ≡ true) ts
    → All (λ p. object_ok p ≡ true) (select_parents ns id rel ts)
unfolding tuple_ok
parents-All ns id rel [] h = tt
parents-All ns id rel (t ∷ ts) (v, h) = elim (Bool-cases (is_about ns id rel t)) [
  | inl here ↦ rw here (parent_of-All t.subject _ (ground arith) (parents-All ns id rel ts h))
  | inr other ↦ rw other (parents-All ns id rel ts h)
]

-- A keyed store returns valid tuples and parents only.
pub as_repository-IsValidStore :
    (r : InMemoryTupleRepository) → IsKeyed r → IsValidStore (as_repository r)
unfolding as_repository
as_repository-IsValidStore r k = record {
  tuples = λ ns id rel. select-All ns id rel _ (values-All r.tuples k);
  parents = λ ns id rel. parents-All ns id rel _ (values-All r.tuples k);
}
