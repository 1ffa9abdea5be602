-- ===== src/Permissions/Check/Evaluation.antt =====
-- The result of `evaluate` as a relation over the results of the calls that it makes.
use server_kit.Base.{Text, Result, ok, err, All, Bool, true, false, not, List, [], ◌∷◌, ◌≡◌, ◌⊎◌}
use server_kit.Permissions.Tuple.{ObjectRef, SubjectRef, userset, RelationTuple}
use server_kit.Permissions.Model.{
  UsersetExpr, direct, computed, tuple_to_userset, union, intersection, exclusion, Children,
  no_children, child, ModelError,
}
use server_kit.Permissions.Repository.{TupleRepository}
use server_kit.Permissions.Check.Monad.{CheckCtx}
use server_kit.Permissions.Check.{matches}

-- A run that keeps the invariant, gives a value with the property `P`, and may throw only if `F`.
-- The invariant is about the memo and the set of visited keys.
abbrev pub Invariant : Type 1
Invariant = List (Text × Bool) → List Text → Type 0

abbrev pub Ensures :
    Type 0 → Invariant → (Bool → Type 0) → Result ModelError (Bool × CheckCtx) → Type 0
Ensures F I P (ok (b, ctx)) = I ctx.memo ctx.visiting × P b
Ensures F I P (err e) = F

module _ (repo : TupleRepository) (subject : SubjectRef) where
  -- The pairs that an evaluation may call.
  module _ (V : ObjectRef → Text → Type 0) where
    abbrev pub CallsOf : SubjectRef → Type 0
    CallsOf (userset ns id rel) = V (record { namespace = ns; id = id }) rel
    CallsOf _ = Unit

    unfoldable mutual
      pub Calls : ObjectRef → Text → UsersetExpr → Type 0
      Calls o relation direct =
          All (λ t. CallsOf t.subject) (repo.list_by_object_relation o.namespace o.id relation)
      Calls o relation (computed rel) = V o rel
      Calls o relation (tuple_to_userset tr cr) =
          All (λ p. V p cr) (repo.list_objects_related_by o.namespace o.id tr)
      Calls o relation (union es) = AllCalls o relation es
      Calls o relation (intersection es) = AllCalls o relation es
      Calls o relation (exclusion base subtract) = Calls o relation base × Calls o relation subtract

      pub AllCalls : ObjectRef → Text → Children → Type 0
      AllCalls o relation no_children = Unit
      AllCalls o relation (child e es) = Calls o relation e × AllCalls o relation es

  -- `R o relation b`: a call on the pair may give `b`.
  module _ (R : ObjectRef → Text → Bool → Type 0) where
    -- What one stored tuple contributes.
    abbrev pub Contributes : SubjectRef → Bool → Type 0
    Contributes (userset ns id rel) b = R (record { namespace = ns; id = id }) rel b
    Contributes _ b = b ≡ false

    abbrev pub Scans : List RelationTuple → Bool → Type 0
    Scans [] b = b ≡ false
    Scans (t ∷ ts) b =
        (matches subject t.subject ≡ true) × (b ≡ true)
        ⊎ (matches subject t.subject ≡ false) × Contributes t.subject true × (b ≡ true)
        ⊎ (matches subject t.subject ≡ false) × Contributes t.subject false × Scans ts b

    abbrev pub Walks : Text → List ObjectRef → Bool → Type 0
    Walks cr [] b = b ≡ false
    Walks cr (p ∷ ps) b = R p cr true × (b ≡ true) ⊎ R p cr false × Walks cr ps b

    unfoldable mutual
      pub Gives : ObjectRef → Text → UsersetExpr → Bool → Type 0
      Gives o relation direct b = Scans (repo.list_by_object_relation o.namespace o.id relation) b
      Gives o relation (computed rel) b = R o rel b
      Gives o relation (tuple_to_userset tr cr) b =
          Walks cr (repo.list_objects_related_by o.namespace o.id tr) b
      Gives o relation (union es) b = AnyGives o relation es b
      Gives o relation (intersection es) b = AllGives o relation es b
      Gives o relation (exclusion base subtract) b =
          Gives o relation base true × ((c : Bool) × Gives o relation subtract c × (b ≡ not c))
          ⊎ Gives o relation base false × (b ≡ false)

      pub AnyGives : ObjectRef → Text → Children → Bool → Type 0
      AnyGives o relation no_children b = b ≡ false
      AnyGives o relation (child e es) b =
          Gives o relation e true × (b ≡ true) ⊎ Gives o relation e false × AnyGives o relation es b

      pub AllGives : ObjectRef → Text → Children → Bool → Type 0
      AllGives o relation no_children b = b ≡ true
      AllGives o relation (child e es) b =
          Gives o relation e true × AllGives o relation es b
          ⊎ Gives o relation e false × (b ≡ false)
