-- ===== src/Permissions/Check/Rule.antt =====
-- One rule for `evaluate`: what holds of its calls holds of it.
use server_kit.Base.{
  Text, Result, ok, err, All, Bool, true, false, not, if◌then◌else◌, Bool-cases, List, [], ◌∷◌, ◌≡◌,
  ◌⊎◌, refl, inl, inr,
}
use server_kit.Permissions.Tuple.{ObjectRef, SubjectRef, concrete, wildcard, userset, RelationTuple}
use server_kit.Permissions.Model.{
  AuthorizationModel, UsersetExpr, direct, computed, tuple_to_userset, union, intersection,
  exclusion, Children, no_children, child, ModelError,
}
use server_kit.Permissions.Repository.{TupleRepository}
use server_kit.Permissions.Check.Monad.{CheckCtx, Check, ◌>>=◌, pure}
use server_kit.Permissions.Check.{
  matches, read_tuple, look_up_parents, scan, has_direct_tuple, any_parent, evaluate, evaluate_any,
  evaluate_all,
}
use server_kit.Permissions.Check.Evaluation.{
  Invariant, Ensures, CallsOf, Calls, AllCalls, Contributes, Scans, Walks, Gives, AnyGives,
  AllGives,
}

module _ (F : Type 0) (I : Invariant) where
  Ensures-bind :
      (P Q : Bool → Type 0) (p : Check Bool) (f : Bool → Check Bool) (ctx : CheckCtx)
      → Ensures F I P (p ctx)
      → ((b : Bool) (ctx' : CheckCtx) → I ctx'.memo ctx'.visiting → P b → Ensures F I Q (f b ctx'))
      → Ensures F I Q ((p >>= f) ctx)
  Ensures-bind P Q p f ctx h k = go (p ctx) h
    where
      go :
          (r : Result ModelError (Bool × CheckCtx))
          → Ensures F I P r
          → Ensures F I Q (elim r [ ok (a, ctx') ↦ f a ctx' | err e ↦ err e ])
      go (ok (b, ctx')) (i, x) = k b ctx' i x
      go (err e) x = x

  pub Ensures-map :
      (P Q : Bool → Type 0) (r : Result ModelError (Bool × CheckCtx))
      → ((b : Bool) → P b → Q b)
      → Ensures F I P r
      → Ensures F I Q r
  Ensures-map P Q (ok (b, ctx)) f (i, x) = (i, f b x)
  Ensures-map P Q (err e) f x = x

module _ (m : AuthorizationModel) (repo : TupleRepository) (subject : SubjectRef)
    (call : ObjectRef → Text → Check Bool) (F : Type 0) (I : Invariant)
    (V : ObjectRef → Text → Type 0) (R : ObjectRef → Text → Bool → Type 0)
    (called : (o : ObjectRef) (rel : Text) (ctx : CheckCtx)
      → V o rel
      → I ctx.memo ctx.visiting
      → Ensures F I (R o rel) (call o rel ctx)) where
  -- A run of the loop that goes on only if its first step denies.
  or_else :
      (P Q S : Bool → Type 0) (p q : Check Bool) (ctx : CheckCtx)
      → I ctx.memo ctx.visiting
      → Ensures F I P (p ctx)
      → ((ctx' : CheckCtx) → I ctx'.memo ctx'.visiting → Ensures F I Q (q ctx'))
      → (P true → S true)
      → ((b : Bool) → P false → Q b → S b)
      → Ensures F I S ((p >>= λ b. if b then pure true else q) ctx)
  or_else P Q S p q ctx i hp hq yes_ no_ = Ensures-bind F I P S p _ ctx hp go
    where
      go :
          (b : Bool) (ctx' : CheckCtx)
          → I ctx'.memo ctx'.visiting
          → P b
          → Ensures F I S ((if b then pure true else q) ctx')
      go true ctx' i' x = (i', yes_ x)
      go false ctx' i' x = Ensures-map F I Q S (q ctx') (λ b y. no_ b x y) (hq ctx' i')

  any_parent-Walks :
      (cr : Text) (ps : List ObjectRef) (ctx : CheckCtx)
      → All (λ p. V p cr) ps
      → I ctx.memo ctx.visiting
      → Ensures F I (Walks repo subject R cr ps) (any_parent m repo subject call cr ps ctx)
  unfolding any_parent
  any_parent-Walks cr [] ctx h i = (i, refl)
  any_parent-Walks cr (p ∷ ps) ctx (v, h) i =
      or_else (R p cr) (Walks repo subject R cr ps) (Walks repo subject R cr (p ∷ ps)) (call p cr)
        (any_parent m repo subject call cr ps) ctx i (called p cr ctx v i)
        (λ ctx' i'. any_parent-Walks cr ps ctx' h i') (λ x. inl (x, refl)) (λ b x y. inr (x, y))

  -- The step of the loop over the stored tuples, where no direct match is.
  scan_step :
      (s : SubjectRef) (t : RelationTuple) (ts : List RelationTuple) (ctx : CheckCtx)
      → t.subject ≡ s
      → matches subject s ≡ false
      → CallsOf repo subject V s
      → I ctx.memo ctx.visiting
      → ((ctx' : CheckCtx)
          → I ctx'.memo ctx'.visiting
          → Ensures F I (Scans repo subject R ts) (scan m repo subject call ts ctx'))
      → Ensures F I
          (λ b.
            Contributes repo subject R s true × (b ≡ true)
            ⊎ Contributes repo subject R s false × Scans repo subject R ts b)
          (scan m repo subject call (t ∷ ts) ctx)
  unfolding scan
  scan_step (userset ns id rel) t ts ctx e no_match v i rest =
      rw (e, no_match, scan)
        (or_else (R (record { namespace = ns; id = id }) rel) (Scans repo subject R ts) _
          (call (record { namespace = ns; id = id }) rel) (scan m repo subject call ts) ctx i
          (called _ rel ctx v i) rest (λ x. inl (x, refl)) (λ b x y. inr (x, y)))
  scan_step (concrete ns id) t ts ctx e no_match v i rest =
      rw (e, no_match, scan)
        (Ensures-map F I (Scans repo subject R ts) _ _ (λ b y. inr (refl, y)) (rest ctx i))
  scan_step (wildcard ns) t ts ctx e no_match v i rest =
      rw (e, no_match, scan)
        (Ensures-map F I (Scans repo subject R ts) _ _ (λ b y. inr (refl, y)) (rest ctx i))

  scan-Scans :
      (ts : List RelationTuple) (ctx : CheckCtx)
      → All (λ t. CallsOf repo subject V t.subject) ts
      → I ctx.memo ctx.visiting
      → Ensures F I (Scans repo subject R ts) (scan m repo subject call ts ctx)
  unfolding scan
  scan-Scans [] ctx h i = (i, refl)
  scan-Scans (t ∷ ts) ctx (v, h) i = elim (Bool-cases (matches subject t.subject)) [
    | inl found ↦ rw (found, scan) (i, inl (found, refl))
    | inr no_match ↦
        Ensures-map F I _ (Scans repo subject R (t ∷ ts)) _
          (λ b x. elim x [
            | inl (p, q) ↦ inr (inl (no_match, p, q))
            | inr (p, q) ↦ inr (inr (no_match, p, q))
          ])
          (scan_step t.subject t ts ctx refl no_match v i (λ ctx' i'. scan-Scans ts ctx' h i'))
  ]

  -- The step of the intersection: it goes on only if its first step Allows.
  and_then :
      (P Q S : Bool → Type 0) (p q : Check Bool) (ctx : CheckCtx)
      → I ctx.memo ctx.visiting
      → Ensures F I P (p ctx)
      → ((ctx' : CheckCtx) → I ctx'.memo ctx'.visiting → Ensures F I Q (q ctx'))
      → (P false → S false)
      → ((b : Bool) → P true → Q b → S b)
      → Ensures F I S ((p >>= λ b. if b then q else pure false) ctx)
  and_then P Q S p q ctx i hp hq no_ yes_ = Ensures-bind F I P S p _ ctx hp go
    where
      go :
          (b : Bool) (ctx' : CheckCtx)
          → I ctx'.memo ctx'.visiting
          → P b
          → Ensures F I S ((if b then q else pure false) ctx')
      go false ctx' i' x = (i', no_ x)
      go true ctx' i' x = Ensures-map F I Q S (q ctx') (λ b y. yes_ b x y) (hq ctx' i')

  negate :
      (Q : Bool → Type 0) (q : Check Bool) (ctx : CheckCtx)
      → Ensures F I Q (q ctx)
      → Ensures F I (λ b. (c : Bool) × Q c × (b ≡ not c)) ((q >>= λ b. pure (not b)) ctx)
  negate Q q ctx h = Ensures-bind F I Q _ q _ ctx h (λ b ctx' i x. (i, (b, x, refl)))

  mutual
    unfolding evaluate has_direct_tuple look_up_parents read_tuple Calls Gives

    evaluate-Gives :
        (o : ObjectRef) (rel : Text) (e : UsersetExpr) (ctx : CheckCtx)
        → Calls repo subject V o rel e
        → I ctx.memo ctx.visiting
        → Ensures F I (Gives repo subject R o rel e) (evaluate m repo subject call o rel e ctx)
    evaluate-Gives o rel direct ctx h i =
        scan-Scans (repo.list_by_object_relation o.namespace o.id rel) _ h i
    evaluate-Gives o rel (computed r) ctx h i = called o r ctx h i
    evaluate-Gives o rel (tuple_to_userset tr cr) ctx h i =
        any_parent-Walks cr (repo.list_objects_related_by o.namespace o.id tr) _ h i
    evaluate-Gives o rel (union es) ctx h i = evaluate_any-Gives o rel es ctx h i
    evaluate-Gives o rel (intersection es) ctx h i = evaluate_all-Gives o rel es ctx h i
    evaluate-Gives o rel (exclusion base subtract) ctx (hb, hs) i =
        and_then (Gives repo subject R o rel base) _
          (Gives repo subject R o rel (exclusion base subtract))
          (evaluate m repo subject call o rel base)
          (evaluate m repo subject call o rel subtract >>= λ b. pure (not b)) ctx i
          (evaluate-Gives o rel base ctx hb i)
          (λ ctx' i'.
            negate (Gives repo subject R o rel subtract)
              (evaluate m repo subject call o rel subtract) ctx'
              (evaluate-Gives o rel subtract ctx' hs i'))
          (λ x. inr (x, refl)) (λ b x y. inl (x, y))

    evaluate_any-Gives :
        (o : ObjectRef) (rel : Text) (es : Children) (ctx : CheckCtx)
        → AllCalls repo subject V o rel es
        → I ctx.memo ctx.visiting
        → Ensures F I
            (AnyGives repo subject R o rel es)
            (evaluate_any m repo subject call o rel es ctx)
    evaluate_any-Gives o rel no_children ctx h i = (i, refl)
    evaluate_any-Gives o rel (child e es) ctx (h, hs) i =
        or_else (Gives repo subject R o rel e) (AnyGives repo subject R o rel es)
          (AnyGives repo subject R o rel (child e es)) (evaluate m repo subject call o rel e)
          (evaluate_any m repo subject call o rel es) ctx i (evaluate-Gives o rel e ctx h i)
          (λ ctx' i'. evaluate_any-Gives o rel es ctx' hs i') (λ x. inl (x, refl))
          (λ b x y. inr (x, y))

    evaluate_all-Gives :
        (o : ObjectRef) (rel : Text) (es : Children) (ctx : CheckCtx)
        → AllCalls repo subject V o rel es
        → I ctx.memo ctx.visiting
        → Ensures F I
            (AllGives repo subject R o rel es)
            (evaluate_all m repo subject call o rel es ctx)
    evaluate_all-Gives o rel no_children ctx h i = (i, refl)
    evaluate_all-Gives o rel (child e es) ctx (h, hs) i =
        and_then (Gives repo subject R o rel e) (AllGives repo subject R o rel es)
          (AllGives repo subject R o rel (child e es)) (evaluate m repo subject call o rel e)
          (evaluate_all m repo subject call o rel es) ctx i (evaluate-Gives o rel e ctx h i)
          (λ ctx' i'. evaluate_all-Gives o rel es ctx' hs i') (λ x. inr (x, refl))
          (λ b x y. inl (x, y))

  pub evaluate_rule :
      (o : ObjectRef) (rel : Text) (e : UsersetExpr) (ctx : CheckCtx)
      → Calls repo subject V o rel e
      → I ctx.memo ctx.visiting
      → Ensures F I (Gives repo subject R o rel e) (evaluate m repo subject call o rel e ctx)
  evaluate_rule = evaluate-Gives
