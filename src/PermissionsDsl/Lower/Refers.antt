-- ===== src/PermissionsDsl/Lower/Refers.antt =====
-- What the references of a parsed file name: the description that validateRefs of lower.ts is compared
-- with.
use server_kit.Base.{
  Text, text_eq, text_eq_iff, ok, All, for_each-eq-ok, Bool, true, some_of, Bool-cases,
  Option-cases, List, [], ◌∷◌, some, none, ◌≡◌, refl, inl, inr, arith,
}
use mathlib.Core.List.{Memᴰ}
use server_kit.PermissionsDsl.Ast.{
  SourceSpan, ExprNode, ref, ttu, union, intersection, exclusion, Exprs, no_exprs, expr,
  SubjectTypeNode, MemberNode, relation, permission, NamespaceNode,
}
use server_kit.PermissionsDsl.Lower.{
  member_name, declares, find_relation, find_node, check_ref, walks_to, check_ttu, check_expr_refs,
  check_all_refs, check_member, validate_refs,
}

-- A member of the namespace has the name.
abbrev pub Declares : NamespaceNode → Text → Type 0
Declares ns name = (d : MemberNode) × Memᴰ d ns.members × (member_name d ≡ name)

module _ (file : List NamespaceNode) where
  -- The subject type stands for objects of a namespace of the file that declares the name.
  abbrev pub WalksTo : Text → SubjectTypeNode → Type 0
  WalksTo cr s =
      (s.relation ≡ none)
      × ((target : NamespaceNode) × Memᴰ target file
          × (target.name ≡ s.namespace)
          × Declares target cr)

  abbrev mutual
    pub Refers : NamespaceNode → ExprNode → Type 0
    Refers ns (ref loc name) = Declares ns name
    Refers ns (ttu loc tr cr) =
        (l : SourceSpan) × (subjects : List SubjectTypeNode) × Memᴰ (relation tr l subjects)
          ns.members
        × ((s : SubjectTypeNode) × Memᴰ s subjects × WalksTo cr s)
    Refers ns (union loc es) = AllRefer ns es
    Refers ns (intersection loc es) = AllRefer ns es
    Refers ns (exclusion loc base subtract) = Refers ns base × Refers ns subtract

    AllRefer : NamespaceNode → Exprs → Type 0
    AllRefer ns no_exprs = Unit
    AllRefer ns (expr e es) = Refers ns e × AllRefer ns es

  some_of-eq-true :
      {A : Type 0} (p : A → Bool) (xs : List A)
      → some_of p xs ≡ true
      → (x : A) × Memᴰ x xs × (p x ≡ true)
  some_of-eq-true p [] h = absurd (cc)
  some_of-eq-true p (x ∷ xs) h = elim (Bool-cases (p x)) [
    | inl here ↦ (x, Memᴰ.head refl, here)
    | inr there ↦
        let (y, at, found) = some_of-eq-true p xs (rw there at h) in (y, Memᴰ.tail at, found)
  ]

  declares-Declares :
      (ns : NamespaceNode) (name : Text) → declares name ns.members ≡ true → Declares ns name
  unfolding declares
  declares-Declares ns name h =
      let (d, at, same) = some_of-eq-true (λ m. text_eq (member_name m) name) ns.members h in
      (d, at, (text_eq_iff (member_name d) name).0 same)

  find_relation-Memᴰ :
      (name : Text) (ms : List MemberNode) (subjects : List SubjectTypeNode)
      → find_relation name ms ≡ some subjects
      → (l : SourceSpan) × Memᴰ (relation name l subjects) ms
  unfolding find_relation
  find_relation-Memᴰ name [] subjects h = absurd (cc)
  find_relation-Memᴰ name (permission k l e ∷ ms) subjects h =
      let (l', at) = find_relation-Memᴰ name ms subjects h in (l', Memᴰ.tail at)
  find_relation-Memᴰ name (relation k l ss ∷ ms) subjects h = elim (Bool-cases (text_eq k name)) [
    | inl same ↦
        let key : k ≡ name = (text_eq_iff k name).0 same in
        let here : ss ≡ subjects = ground arith in (l, Memᴰ.head (cc))
    | inr other ↦
        let (l', at) = find_relation-Memᴰ name ms subjects (rw other at h) in (l', Memᴰ.tail at)
  ]

  find_node-Memᴰ :
      (name : Text) (nss : List NamespaceNode) (ns : NamespaceNode)
      → find_node name nss ≡ some ns
      → Memᴰ ns nss × (ns.name ≡ name)
  unfolding find_node
  find_node-Memᴰ name [] ns h = absurd (cc)
  find_node-Memᴰ name (x ∷ nss) ns h = elim (Bool-cases (text_eq x.name name)) [
    | inl same ↦
        let here : x ≡ ns = ground arith in (Memᴰ.head (cc), cc ((text_eq_iff x.name name).0 same))
    | inr other ↦
        let (at, named) = find_node-Memᴰ name nss ns (rw other at h) in (Memᴰ.tail at, named)
  ]

  walks_to-WalksTo : (cr : Text) (s : SubjectTypeNode) → walks_to file cr s ≡ true → WalksTo cr s
  unfolding walks_to
  walks_to-WalksTo cr s h = elim (Option-cases (s.relation)) [
    | inr (rel, there) ↦ absurd (ground arith)
    | inl alone ↦ elim (Option-cases (find_node (s.namespace) file)) [
      | inl missing ↦ absurd (ground arith)
      | inr (target, found) ↦
          let (at, named) = find_node-Memᴰ (s.namespace) file target found in
          let known : declares cr target.members ≡ true = ground arith in
          (alone, (target, at, named, declares-Declares target cr known))
    ]
  ]

  mutual
    unfolding check_expr_refs check_ref check_ttu

    check_expr_refs-Refers :
        (ns : NamespaceNode) (e : ExprNode) → check_expr_refs file ns e ≡ ok tt → Refers ns e
    check_expr_refs-Refers ns (ref loc name) h = declares-Declares ns name (ground arith)
    check_expr_refs-Refers ns (ttu loc tr cr) h =
        elim (Option-cases (find_relation tr ns.members)) [
          | inl missing ↦ absurd (ground arith)
          | inr (subjects, found) ↦
              let (l, at) = find_relation-Memᴰ tr ns.members subjects found in
              let walks : some_of (walks_to file cr) subjects ≡ true = ground arith in
              let (s, in_, to) = some_of-eq-true (walks_to file cr) subjects walks in
              (l, subjects, at, (s, in_, walks_to-WalksTo cr s to))
        ]
    check_expr_refs-Refers ns (union loc es) h = check_all_refs-AllRefer ns es (ground arith)
    check_expr_refs-Refers ns (intersection loc es) h = check_all_refs-AllRefer ns es (ground arith)
    check_expr_refs-Refers ns (exclusion loc base subtract) h = (
      check_expr_refs-Refers ns base (ground arith),
      check_expr_refs-Refers ns subtract (ground arith),
    )

    check_all_refs-AllRefer :
        (ns : NamespaceNode) (es : Exprs) → check_all_refs file ns es ≡ ok tt → AllRefer ns es
    check_all_refs-AllRefer ns no_exprs h = tt
    check_all_refs-AllRefer ns (expr e es) h =
        (check_expr_refs-Refers ns e (ground arith), check_all_refs-AllRefer ns es (ground arith))

  All-Memᴰ : {A : Type 0} (P : A → Type 0) (xs : List A) (x : A) → All P xs → Memᴰ x xs → P x
  All-Memᴰ P [] x p at = elim at [ ]
  All-Memᴰ P (y ∷ xs) x (p, ps) (Memᴰ.head e) = rw e p
  All-Memᴰ P (y ∷ xs) x (p, ps) (Memᴰ.tail at) = All-Memᴰ P xs x ps at

  pub validate_refs-Refers :
      (ns : NamespaceNode) (name : Text) (l : SourceSpan) (e : ExprNode)
      → validate_refs file ≡ ok tt
      → Memᴰ ns file
      → Memᴰ (permission name l e) ns.members
      → Refers ns e
  unfolding validate_refs check_member
  validate_refs-Refers ns name l e h at member =
      let each = All-Memᴰ _ file ns (for_each-eq-ok _ file h) at in
      check_expr_refs-Refers ns e
        (All-Memᴰ _ ns.members (permission name l e) (for_each-eq-ok _ ns.members each) member)
