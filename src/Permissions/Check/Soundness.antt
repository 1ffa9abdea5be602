-- ===== src/Permissions/Check/Soundness.antt =====
-- The runs of `check` and the derivations of what they allow.
use server_kit.Base.{
  ℕ, zero, suc, ◌-◌, Text, text_eq, text_eq_iff, lookup, insert, lookup-insert, contains, Result,
  ok, err, All, Bool, true, Bool-cases, Option-cases, List, [], ◌∷◌, Option, some, none, ◌≡◌, refl,
  subst₂, inl, inr, arith,
}
use mathlib.Core.List.{Memᴰ}
use server_kit.Permissions.Tuple.{
  ObjectRef, SubjectRef, concrete, wildcard, userset, RelationTuple, object_ok, subject_ok,
  tuple_ok,
}
use server_kit.Permissions.Model.{
  ModelError, AuthorizationModel, UsersetExpr, direct, computed, tuple_to_userset, union,
  intersection, exclusion, Children, no_children, child, resolve,
}
use server_kit.Permissions.Repository.{TupleRepository}
use server_kit.Permissions.Check.{
  matches, check_inner, run, run_expr, settle, memo_key, enter, leave, remember, note_depth,
  flag_depth, count_hit, evaluate, max_depth, check, fresh, Observation,
}
use server_kit.Permissions.Check.Monad.{CheckCtx, Check}
use server_kit.Permissions.Check.Evaluation.{
  Ensures, CallsOf, Calls, AllCalls, Contributes, Scans, Walks, Gives, AnyGives, AllGives,
}
use server_kit.Permissions.Check.Rule.{evaluate_rule, Ensures-map}
use server_kit.Permissions.Check.Key.{memo_key-injective}
use server_kit.Permissions.Check.Positive.{
  IsPositive, ArePositive, IsPositiveModel, resolve-IsPositive,
}
use server_kit.Permissions.Check.Grants.{
  Grants, by, Holds, stored, member, rewritten, walked, some_branch, each_branch, Any, first, later,
  Each, done, more,
}

-- Every tuple and parent that the store returns is valid.
pub record IsValidStore (repo : TupleRepository) : Type 0 where
  pub tuples :
      (ns id rel : Text) → All (λ t. tuple_ok t ≡ true) (repo.list_by_object_relation ns id rel)
  pub parents :
      (ns id rel : Text) → All (λ p. object_ok p ≡ true) (repo.list_objects_related_by ns id rel)

module _ (m : AuthorizationModel) (repo : TupleRepository) (subject : SubjectRef) where
  -- An allowing result is derivable.
  abbrev Justified : ObjectRef → Text → Bool → Type 0
  Justified o rel b = b ≡ true → Grants m repo subject o rel

  data Source (o : ObjectRef) (rel : Text) (ts : List RelationTuple) : Type 0 where
    by_match : (t : RelationTuple) → Memᴰ t ts → matches subject t.subject ≡ true → Source o rel ts
    by_userset :
        (t : RelationTuple) (ns id r : Text)
        → Memᴰ t ts
        → t.subject ≡ userset ns id r
        → Grants m repo subject (record { namespace = ns; id = id }) r
        → Source o rel ts

  Source-cons :
      (o : ObjectRef) (rel : Text) (t : RelationTuple) (ts : List RelationTuple)
      → Source o rel ts
      → Source o rel (t ∷ ts)
  Source-cons o rel t ts (by_match u e h) = by_match u (Memᴰ.tail e) h
  Source-cons o rel t ts (by_userset u ns id r e h g) = by_userset u ns id r (Memᴰ.tail e) h g

  Source-userset :
      (o : ObjectRef) (rel : Text) (t : RelationTuple) (ts : List RelationTuple) (s : SubjectRef)
      → t.subject ≡ s
      → Contributes repo subject Justified s true
      → Source o rel (t ∷ ts)
  Source-userset o rel t ts (userset ns id r) e g = by_userset t ns id r (Memᴰ.head refl) e (g refl)
  Source-userset o rel t ts (concrete ns id) e g = cc
  Source-userset o rel t ts (wildcard ns) e g = cc

  Source-Scans :
      (o : ObjectRef) (rel : Text) (ts : List RelationTuple) (b : Bool)
      → Scans repo subject Justified ts b
      → b ≡ true
      → Source o rel ts
  Source-Scans o rel [] b h e = cc
  Source-Scans o rel (t ∷ ts) b (inl (found, _)) e = by_match t (Memᴰ.head refl) found
  Source-Scans o rel (t ∷ ts) b (inr (inl (_, g, _))) e = Source-userset o rel t ts t.subject refl g
  Source-Scans o rel (t ∷ ts) b (inr (inr (_, _, rest))) e =
      Source-cons o rel t ts (Source-Scans o rel ts b rest e)

  Holds-Source :
      (o : ObjectRef) (rel : Text)
      → Source o rel (repo.list_by_object_relation o.namespace o.id rel)
      → Holds m repo subject o rel direct
  Holds-Source o rel (by_match t e h) = stored t e h
  Holds-Source o rel (by_userset t ns id r e h g) = member t ns id r e h g

  parent_of_Walks :
      (cr : Text) (ps : List ObjectRef) (b : Bool)
      → Walks repo subject Justified cr ps b
      → b ≡ true
      → (p : ObjectRef) × Memᴰ p ps × Grants m repo subject p cr
  parent_of_Walks cr [] b h e = cc
  parent_of_Walks cr (p ∷ ps) b (inl (g, _)) e = (p, Memᴰ.head refl, g refl)
  parent_of_Walks cr (p ∷ ps) b (inr (_, rest)) e =
      let (q, at, g) = parent_of_Walks cr ps b rest e in (q, Memᴰ.tail at, g)

  mutual
    unfolding Gives

    Holds-Gives :
        (o : ObjectRef) (rel : Text) (e : UsersetExpr) (b : Bool)
        → IsPositive e
        → Gives repo subject Justified o rel e b
        → b ≡ true
        → Holds m repo subject o rel e
    Holds-Gives o rel direct b pos g h = Holds-Source o rel (Source-Scans o rel _ b g h)
    Holds-Gives o rel (computed r) b pos g h = rewritten (g h)
    Holds-Gives o rel (tuple_to_userset tr cr) b pos g h =
        let (p, at, x) = parent_of_Walks cr _ b g h in walked p at x
    Holds-Gives o rel (union es) b pos g h = some_branch (Any-Gives o rel es b pos g h)
    Holds-Gives o rel (intersection es) b pos g h = each_branch (Each-Gives o rel es b pos g h)
    Holds-Gives o rel (exclusion base subtract) b pos g h = absurd pos

    Any-Gives :
        (o : ObjectRef) (rel : Text) (es : Children) (b : Bool)
        → ArePositive es
        → AnyGives repo subject Justified o rel es b
        → b ≡ true
        → Any m repo subject o rel es
    Any-Gives o rel no_children b pos g h = cc
    Any-Gives o rel (child e es) b (p, ps) (inl (g, _)) h =
        first (Holds-Gives o rel e true p g refl)
    Any-Gives o rel (child e es) b (p, ps) (inr (_, rest)) h =
        later (Any-Gives o rel es b ps rest h)

    Each-Gives :
        (o : ObjectRef) (rel : Text) (es : Children) (b : Bool)
        → ArePositive es
        → AllGives repo subject Justified o rel es b
        → b ≡ true
        → Each m repo subject o rel es
    Each-Gives o rel no_children b pos g h = done
    Each-Gives o rel (child e es) b (p, ps) (inl (g, rest)) h =
        more (Holds-Gives o rel e true p g refl) (Each-Gives o rel es b ps rest h)
    Each-Gives o rel (child e es) b (p, ps) (inr (_, denied)) h = cc

  -- Every remembered allow is derivable.
  abbrev SoundMemo : List (Text × Bool) → List Text → Type 0
  SoundMemo memo visiting =
      (o : ObjectRef) (rel : Text)
      → object_ok o ≡ true
      → lookup (memo_key o rel subject) memo ≡ some true
      → Grants m repo subject o rel

  abbrev IsValidPair : ObjectRef → Text → Type 0
  IsValidPair o rel = object_ok o ≡ true

  remember-SoundMemo :
      (o : ObjectRef) (rel : Text) (b : Bool) (memo : List (Text × Bool)) (visiting : List Text)
      → object_ok o ≡ true
      → Justified o rel b
      → SoundMemo memo visiting
      → SoundMemo (insert (memo_key o rel subject) b memo) visiting
  remember-SoundMemo o rel b memo visiting h g i o' rel' h' found =
      elim (Bool-cases (text_eq (memo_key o rel subject) (memo_key o' rel' subject))) [
        | inl same ↦
            let (eo, er) =
              memo_key-injective subject o o' rel rel' h h' ((text_eq_iff _ _).0 same) in
            let allowed : b ≡ true =
              ground
                (arith, lookup-insert (memo_key o rel subject) (memo_key o' rel' subject) b memo) in
            subst₂ (Grants m repo subject) eo er (g allowed)
        | inr other ↦ i o' rel' h' (
            ground
              (arith, lookup-insert (memo_key o rel subject) (memo_key o' rel' subject) b memo))
      ]

  module _ (valid : IsValidStore repo) (positive : IsPositiveModel m) where
    CallsOf-valid : (s : SubjectRef) → subject_ok s ≡ true → CallsOf repo subject IsValidPair s
    unfolding subject_ok object_ok
    CallsOf-valid (userset ns id r) h = ground arith
    CallsOf-valid (concrete ns id) h = tt
    CallsOf-valid (wildcard ns) h = tt

    CallsOf-tuples :
        (ts : List RelationTuple)
        → All (λ t. tuple_ok t ≡ true) ts
        → All (λ t. CallsOf repo subject IsValidPair t.subject) ts
    unfolding tuple_ok
    CallsOf-tuples [] h = tt
    CallsOf-tuples (t ∷ ts) (h, hs) = (CallsOf-valid t.subject (ground arith), CallsOf-tuples ts hs)

    mutual
      unfolding Calls

      Calls-valid :
          (o : ObjectRef) (rel : Text) (e : UsersetExpr)
          → object_ok o ≡ true
          → Calls repo subject IsValidPair o rel e
      Calls-valid o rel direct h = CallsOf-tuples _ (valid.tuples o.namespace o.id rel)
      Calls-valid o rel (computed r) h = h
      Calls-valid o rel (tuple_to_userset tr cr) h = valid.parents o.namespace o.id tr
      Calls-valid o rel (union es) h = AllCalls-valid o rel es h
      Calls-valid o rel (intersection es) h = AllCalls-valid o rel es h
      Calls-valid o rel (exclusion base subtract) h =
          (Calls-valid o rel base h, Calls-valid o rel subtract h)

      AllCalls-valid :
          (o : ObjectRef) (rel : Text) (es : Children)
          → object_ok o ≡ true
          → AllCalls repo subject IsValidPair o rel es
      AllCalls-valid o rel no_children h = tt
      AllCalls-valid o rel (child e es) h = (Calls-valid o rel e h, AllCalls-valid o rel es h)

    abbrev IsJust : ObjectRef → Text → Result ModelError (Bool × CheckCtx) → Type 0
    IsJust o rel r = Ensures (Unit {0}) SoundMemo (Justified o rel) r

    module _ (call : ObjectRef → Text → Check Bool)
        (called : (o : ObjectRef) (rel : Text) (ctx : CheckCtx)
          → object_ok o ≡ true
          → SoundMemo ctx.memo ctx.visiting
          → IsJust o rel (call o rel ctx)) where
      settle-IsJust :
          (o : ObjectRef) (rel : Text) (r : Result ModelError (Bool × CheckCtx))
          → object_ok o ≡ true
          → IsJust o rel r
          → IsJust o rel (settle m repo subject (memo_key o rel subject) r)
      unfolding settle remember leave
      settle-IsJust o rel (err e) h x = tt
      settle-IsJust o rel (ok (b, ctx)) h (i, g) =
          (remember-SoundMemo o rel b ctx.memo ctx.visiting h g i, g)

      run-IsJust :
          (o : ObjectRef) (rel : Text) (ctx : CheckCtx)
          → object_ok o ≡ true
          → SoundMemo ctx.memo ctx.visiting
          → IsJust o rel (run m repo subject call o rel (memo_key o rel subject) ctx)
      unfolding run run_expr enter leave
      run-IsJust o rel ctx h i = go (resolve m o.namespace rel) refl
        where
          go :
              (r : Result ModelError (Option UsersetExpr))
              → resolve m o.namespace rel ≡ r
              → IsJust o rel (run m repo subject call o rel (memo_key o rel subject) ctx)
          go (err e) eq = rw (eq, run) tt
          go (ok none) eq = rw (eq, run) (i, λ x. cc)
          go (ok (some expr)) eq =
              let c = enter m repo subject (memo_key o rel subject) ctx in
              rw (eq, run)
                (settle-IsJust o rel (evaluate m repo subject call o rel expr c) h (
                  Ensures-map (Unit {0}) SoundMemo _ _ _
                    (λ b g x. by expr eq (
                      Holds-Gives o rel expr b
                        (resolve-IsPositive m o.namespace rel expr positive eq) g x))
                    (evaluate_rule m repo subject call (Unit {0}) SoundMemo IsValidPair Justified
                      called o rel expr c (Calls-valid o rel expr h) i)))

    check_inner-IsJust :
        (left : ℕ) (o : ObjectRef) (rel : Text) (ctx : CheckCtx)
        → object_ok o ≡ true
        → SoundMemo ctx.memo ctx.visiting
        → IsJust o rel (check_inner m repo subject left o rel ctx)
    unfolding check_inner note_depth flag_depth count_hit
    check_inner-IsJust zero o rel ctx h i = (i, λ x. cc)
    check_inner-IsJust (suc left) o rel ctx h i =
        elim (Option-cases (lookup (memo_key o rel subject) ctx.memo)) [
          | inr (b, found) ↦
              rw (found, check_inner) (i, λ allowed. i o rel h (rw (← allowed) found))
          | inl missing ↦ elim (Bool-cases (contains (memo_key o rel subject) ctx.visiting)) [
            | inl cycle ↦ rw (missing, cycle, check_inner) (i, λ x. cc)
            | inr new ↦
                rw (missing, new, check_inner)
                  (run-IsJust (check_inner m repo subject left) (check_inner-IsJust left) o rel
                    (note_depth m repo subject (max_depth - left) ctx) h i)
          ]
        ]

-- In a model without exclusions, what `check` allows on a valid object over a store of valid tuples has
-- a derivation from the expressions of the model and the stored tuples, whatever the memo, the cycle
-- guard and the depth bound cut off.
pub check-Grants :
    (m : AuthorizationModel) (repo : TupleRepository) (elapsed : ℕ) (o : ObjectRef) (rel : Text)
    (subject : SubjectRef) (seen : Observation)
    → IsValidStore repo
    → IsPositiveModel m
    → object_ok o ≡ true
    → check m repo elapsed o rel subject ≡ ok (true, seen)
    → Grants m repo subject o rel
unfolding check
check-Grants m repo elapsed o rel subject seen valid positive h e = go _ refl (
    check_inner-IsJust m repo subject valid positive (suc max_depth) o rel fresh h
      (λ o' rel' h' x. absurd (cc)))
  where
    go :
        (r : Result ModelError (Bool × CheckCtx))
        → check_inner m repo subject (suc max_depth) o rel fresh ≡ r
        → IsJust m repo subject valid positive o rel r
        → Grants m repo subject o rel
    go (err x) eq j = absurd (ground arith)
    go (ok (b, ctx)) eq (i, g) = g (ground arith)
