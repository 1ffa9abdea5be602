-- ===== src/Permissions/Model/WellFormed.antt =====
-- What the constructor of the model guarantees.
use server_kit.Base.{
  Text, text_eq, text_eq_sound, lookup, ok, >>=-eq-ok, >>-eq-ok, for_each, guard-eq-ok,
  for_each-eq-ok, All, All-lookup, true, not, ◌||◌, some_of, Bool-cases, Option-cases, List, [],
  ◌∷◌, ◌++◌, append_assoc, append-nil, Option, some, none, ◌≡◌, ◌≢◌, ◌⊎◌, refl, ◌∙◌, sym, subst,
  inl, inr, arith,
}
use server_kit.Permissions.Tuple.{is_name}
use server_kit.Permissions.Model.{
  UsersetExpr, direct, computed, tuple_to_userset, union, intersection, exclusion, Children,
  no_children, child, RelationDef, NamespaceDef, parse_subject_type, is_inherited, has,
  find_namespace, AuthorizationModel, resolve, validate_target, validate_subject_type,
  validate_relations, candidate_defines, validate_walk, is_empty, validate_expr, validate_children,
  validate_permissions, validate_namespace, validate, register, construct,
}

pub All-find {κ} :
    (P : NamespaceDef → Type κ) (n : Text) (l : List NamespaceDef) {ns : NamespaceDef}
    → All P l
    → find_namespace n l ≡ some ns
    → P ns × (ns.name ≡ n)
All-find P n [] h e = cc
All-find P n (x ∷ l) {ns} (p, h) e = elim (Bool-cases (text_eq x.name n)) [
  | inl same ↦
      let found : x ≡ ns = ground arith in
      subst (λ y. P y × (y.name ≡ n)) found (p, text_eq_sound x.name n same)
  | inr other ↦ All-find P n l h (rw other at e)
]

-- `resolve` finds an expression, or a property that every object inherits, and does not throw.
abbrev pub Finds : AuthorizationModel → Text → Text → Type 0
Finds m namespace name = (r : Option UsersetExpr) × (resolve m namespace name ≡ ok r)

resolve-has :
    (m : AuthorizationModel) (n k : Text) (ns : NamespaceDef)
    → find_namespace n m.by_name ≡ some ns
    → (has k ns.relations || has k ns.permissions) ≡ true
    → Finds m n k
unfolding resolve
resolve-has m n k ns e h = elim (Option-cases (lookup k ns.permissions)) [
  | inr (x, found) ↦ (some x, ground arith)
  | inl missing ↦ elim (Bool-cases (is_inherited k)) [
    | inl inherited ↦ (none, ground arith)
    | inr own ↦ (some direct, ground arith)
  ]
]

-- Some subject type stands for objects of a namespace that defines `cr`.
abbrev pub Walkable : AuthorizationModel → Text → List Text → Type 0
Walkable m cr [] = ⊥
Walkable m cr (s ∷ subjects) =
    ((parse_subject_type s).relation ≡ none) × Finds m (parse_subject_type s).namespace cr
    ⊎ Walkable m cr subjects

-- Every reference of an expression of the namespace is found.
unfoldable mutual
  pub References : AuthorizationModel → NamespaceDef → UsersetExpr → Type 0
  References m ns direct = Unit
  References m ns (computed rel) = Finds m ns.name rel
  References m ns (tuple_to_userset tr cr) =
      (def : RelationDef) × (lookup tr ns.relations ≡ some def) × Walkable m cr def.subjects
  References m ns (union es) = (es ≢ no_children) × AllReferences m ns es
  References m ns (intersection es) = (es ≢ no_children) × AllReferences m ns es
  References m ns (exclusion base subtract) = References m ns base × References m ns subtract

  pub AllReferences : AuthorizationModel → NamespaceDef → Children → Type 0
  AllReferences m ns no_children = Unit
  AllReferences m ns (child e es) = References m ns e × AllReferences m ns es

module _ (m : AuthorizationModel) where
  Walkable-candidate :
      (cr : Text) (subjects : List Text)
      → some_of (candidate_defines m.by_name cr) subjects ≡ true
      → Walkable m cr subjects
  unfolding candidate_defines
  Walkable-candidate cr [] h = cc
  Walkable-candidate cr (s ∷ subjects) h = elim (Bool-cases (candidate_defines m.by_name cr s)) [
    | inr other ↦ inr (Walkable-candidate cr subjects (ground arith))
    | inl here ↦ elim (Option-cases (find_namespace (parse_subject_type s).namespace m.by_name)) [
      | inl missing ↦ absurd (ground arith)
      | inr (target, found) ↦ inl (
        ground arith,
        resolve-has m (parse_subject_type s).namespace cr target found (ground arith),
      )
    ]
  ]

is_empty-ne :
    (l : List NamespaceDef) (es : Children) → not (is_empty l es) ≡ true → es ≢ no_children
is_empty-ne l no_children h = cc
is_empty-ne l (child e es) h = cc

module _ (m : AuthorizationModel) (ns : NamespaceDef)
    (here : find_namespace ns.name m.by_name ≡ some ns) where
  validate_walk-References :
      (tr cr : Text)
      → validate_walk m.by_name ns tr cr ≡ ok tt
      → (def : RelationDef) × (lookup tr ns.relations ≡ some def) × Walkable m cr def.subjects
  unfolding validate_walk
  validate_walk-References tr cr h = elim (Option-cases (lookup tr ns.relations)) [
    | inl missing ↦ absurd (ground arith)
    | inr (def, found) ↦ (def, found, Walkable-candidate m cr def.subjects (ground arith))
  ]

  mutual
    unfolding validate_expr References

    validate_expr-References :
        (e : UsersetExpr) → validate_expr m.by_name ns e ≡ ok tt → References m ns e
    validate_expr-References direct h = tt
    validate_expr-References (computed rel) h =
        resolve-has m ns.name rel ns here (guard-eq-ok _ _ h)
    validate_expr-References (tuple_to_userset tr cr) h = validate_walk-References tr cr h
    validate_expr-References (union es) h =
        let (some_child, valid) = >>-eq-ok _ _ h in
        (
          is_empty-ne m.by_name es (guard-eq-ok _ _ some_child),
          validate_children-References es valid,
        )
    validate_expr-References (intersection es) h =
        let (some_child, valid) = >>-eq-ok _ _ h in
        (
          is_empty-ne m.by_name es (guard-eq-ok _ _ some_child),
          validate_children-References es valid,
        )
    validate_expr-References (exclusion base subtract) h =
        let (b, s) = >>-eq-ok _ _ h in
        (validate_expr-References base b, validate_expr-References subtract s)

    validate_children-References :
        (es : Children) → validate_children m.by_name ns es ≡ ok tt → AllReferences m ns es
    validate_children-References no_children h = tt
    validate_children-References (child e es) h =
        let (x, xs) = >>-eq-ok _ _ h in
        (validate_expr-References e x, validate_children-References es xs)

  validate_permissions-References :
      (perm : Text) {e : UsersetExpr}
      → validate_permissions m.by_name ns ≡ ok tt
      → lookup perm ns.permissions ≡ some e
      → References m ns e
  unfolding validate_permissions
  validate_permissions-References perm {e} h found =
      let each = for_each-eq-ok _ ns.permissions h in
      let one = All-lookup _ perm ns.permissions each found in
      let valid : validate_expr m.by_name ns e ≡ ok tt = ground arith in
      validate_expr-References e valid

-- A subject type names a namespace of the model, and a relation of it if it names one.
abbrev pub Declared : AuthorizationModel → Text → Type 0
Declared m s =
    (target : NamespaceDef) × (find_namespace (parse_subject_type s).namespace m.by_name
      ≡ some target)
    × ((rel : Text) → (parse_subject_type s).relation ≡ some rel → has rel target.relations ≡ true)

validate_target-eq-ok :
    (rel : Option Text) (found : Option NamespaceDef)
    → validate_target rel found ≡ ok tt
    → (target : NamespaceDef) × (found ≡ some target)
      × ((r : Text) → rel ≡ some r → has r target.relations ≡ true)
unfolding validate_target
validate_target-eq-ok rel none h = cc
validate_target-eq-ok none (some target) h = (target, refl, λ r e. cc)
validate_target-eq-ok (some rel) (some target) h = (target, refl, λ r e. ground arith)

validate_subject_type-Declared :
    (m : AuthorizationModel) (s : Text) → validate_subject_type m.by_name s ≡ ok tt → Declared m s
unfolding validate_subject_type
validate_subject_type-Declared m s h =
    let (_, rest) = >>-eq-ok _ _ h in validate_target-eq-ok _ _ rest

All-map {ℓ κ μ} :
    {A : Type ℓ} (P : A → Type κ) (Q : A → Type μ) (xs : List A)
    → ((a : A) → P a → Q a)
    → All P xs
    → All Q xs
All-map P Q [] f h = tt
All-map P Q (x ∷ xs) f (p, h) = (f x p, All-map P Q xs f h)

validate_relations-Declared :
    (m : AuthorizationModel) (ns : NamespaceDef) (rel : Text) {def : RelationDef}
    → validate_relations m.by_name ns ≡ ok tt
    → lookup rel ns.relations ≡ some def
    → All (Declared m) def.subjects
unfolding validate_relations
validate_relations-Declared m ns rel {def} h found =
    let each = for_each-eq-ok _ ns.relations h in
    let one = All-lookup _ rel ns.relations each found in
    let valid : for_each (validate_subject_type m.by_name) def.subjects ≡ ok tt = ground arith in
    let subjects = for_each-eq-ok _ def.subjects valid in
    All-map _ (Declared m) def.subjects (validate_subject_type-Declared m) subjects

register-eq-ok :
    (done rest : List NamespaceDef) {by_name : List NamespaceDef}
    → register done rest ≡ ok by_name
    → by_name ≡ done ++ rest
unfolding register
register-eq-ok done [] h = ground (arith, append-nil done)
register-eq-ok done (ns ∷ rest) h =
    let (_, later) = >>-eq-ok _ _ h in
    register-eq-ok (done ++ ns ∷ []) rest later ∙ append_assoc done (ns ∷ []) rest

-- What a model that was constructed guarantees of the namespace found under a name.
pub record IsSound (m : AuthorizationModel) (n : Text) (ns : NamespaceDef) : Type 0 where
  pub valid : is_name n ≡ true
  pub named : ns.name ≡ n
  pub relations :
      (rel : Text) (def : RelationDef)
      → lookup rel ns.relations ≡ some def
      → All (Declared m) def.subjects
  pub permissions :
      (perm : Text) (e : UsersetExpr) → lookup perm ns.permissions ≡ some e → References m ns e

pub construct-eq-ok :
    (namespaces : List NamespaceDef) {m : AuthorizationModel}
    → construct namespaces ≡ ok m
    → (m.by_name ≡ namespaces) × (validate m.by_name ≡ ok tt)
unfolding construct
construct-eq-ok namespaces {m} h =
    let (by_name, registered, rest) = >>=-eq-ok (register [] namespaces) _ h in
    let (valid, same) = >>-eq-ok (validate by_name) _ rest in
    let e = register-eq-ok [] namespaces registered in (ground arith, ground arith)

-- The constructor keeps the namespaces it is given, in their order. In the model it returns, every
-- namespace that is found has a valid name, every subject type of its relations names a declared
-- namespace and relation, and every reference of its permissions is found: a computed one names a
-- relation or permission of the same namespace, and a walk goes along a relation of the namespace of
-- which at least one subject type without a relation has a namespace that finds the computed name; the
-- other subject types may not. A name that every object inherits counts as found.
pub construct-IsSound :
    (namespaces : List NamespaceDef) (m : AuthorizationModel) (n : Text) (ns : NamespaceDef)
    → construct namespaces ≡ ok m
    → find_namespace n m.by_name ≡ some ns
    → (m.by_name ≡ namespaces) × IsSound m n ns
unfolding validate validate_namespace
construct-IsSound namespaces m n ns h found =
    let (same, valid) = construct-eq-ok namespaces h in
    let each = for_each-eq-ok _ m.by_name valid in
    let (one, named) =
      All-find (λ x. validate_namespace m.by_name x ≡ ok tt) n m.by_name each found in
    let name_ok : is_name ns.name ≡ true = ground arith in
    let relations_ok : validate_relations m.by_name ns ≡ ok tt = ground arith in
    let permissions_ok : validate_permissions m.by_name ns ≡ ok tt = ground arith in
    let here : find_namespace ns.name m.by_name ≡ some ns =
      subst (λ k. find_namespace k m.by_name ≡ some ns) (sym named) found in
    (
      same,
      record {
        valid = subst (λ k. is_name k ≡ true) named name_ok;
        named = named;
        relations = λ rel def e. validate_relations-Declared m ns rel relations_ok e;
        permissions = λ perm e x. validate_permissions-References m ns here perm permissions_ok x;
      },
    )
