-- ===== src/Permissions/Check/Positive.antt =====
-- Models without exclusions, in which more tuples never take an access away.
use server_kit.Base.{
  Text, text_eq, lookup, ok, All, Bool-cases, Option-cases, List, [], ◌∷◌, some, ◌≡◌, refl, sym,
  subst, ◌∙◌, inl, inr, arith,
}
use server_kit.Permissions.Model.{
  NamespaceDef, AuthorizationModel, UsersetExpr, direct, computed, tuple_to_userset, union,
  intersection, exclusion, Children, no_children, child, find_namespace, resolve,
}
use server_kit.Permissions.Model.WellFormed.{All-find}

-- No exclusion occurs in the expression.
abbrev mutual
  pub IsPositive : UsersetExpr → Type 0
  IsPositive (union es) = ArePositive es
  IsPositive (intersection es) = ArePositive es
  IsPositive (exclusion base subtract) = ⊥
  IsPositive direct = Unit
  IsPositive (computed r) = Unit
  IsPositive (tuple_to_userset tr cr) = Unit

  pub ArePositive : Children → Type 0
  ArePositive no_children = Unit
  ArePositive (child e es) = IsPositive e × ArePositive es

-- No permission of the namespace has an exclusion.
abbrev pub HasPositive : NamespaceDef → Type 0
HasPositive ns = All (λ (p : Text × UsersetExpr). IsPositive p.1) ns.permissions

abbrev pub IsPositiveModel : AuthorizationModel → Type 0
IsPositiveModel m = All HasPositive m.by_name

lookup-IsPositive :
    (k : Text) (ps : List (Text × UsersetExpr)) (e : UsersetExpr)
    → All (λ (p : Text × UsersetExpr). IsPositive p.1) ps
    → lookup k ps ≡ some e
    → IsPositive e
lookup-IsPositive k [] e h f = absurd (cc)
lookup-IsPositive k ((j, x) ∷ ps) e (h, hs) f = elim (Bool-cases (text_eq j k)) [
  | inl same ↦
      let here : lookup k ((j, x) ∷ ps) ≡ some x = rw same refl in
      let one : x ≡ e = cc in subst IsPositive one h
  | inr other ↦
      let there : lookup k ((j, x) ∷ ps) ≡ lookup k ps = rw other refl in
      lookup-IsPositive k ps e hs (sym there ∙ f)
]

resolved-IsPositive :
    (m : AuthorizationModel) (n k : Text) (ns : NamespaceDef) (e : UsersetExpr)
    → HasPositive ns
    → find_namespace n m.by_name ≡ some ns
    → resolve m n k ≡ ok (some e)
    → IsPositive e
unfolding resolve
resolved-IsPositive m n k ns e h found f = elim (Option-cases (lookup k ns.permissions)) [
  | inr (x, here) ↦
      let one : x ≡ e = ground arith in
      subst IsPositive one (lookup-IsPositive k ns.permissions x h here)
  | inl missing ↦ let relation : direct ≡ e = ground arith in subst IsPositive relation tt
]

pub resolve-IsPositive :
    (m : AuthorizationModel) (n k : Text) (e : UsersetExpr)
    → IsPositiveModel m
    → resolve m n k ≡ ok (some e)
    → IsPositive e
unfolding resolve
resolve-IsPositive m n k e h f = elim (Option-cases (find_namespace n m.by_name)) [
  | inl missing ↦ absurd (ground arith)
  | inr (ns, found) ↦
      resolved-IsPositive m n k ns e (All-find HasPositive n m.by_name h found).0 found f
]
