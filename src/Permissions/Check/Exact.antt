-- ===== src/Permissions/Check/Exact.antt =====
-- `check` and the reference evaluator on models without reachable cycles.
use server_kit.Base.{
  ℕ, zero, suc, ◌-◌, ◌<◌, ◌≤◌, Text, text_eq, text_eq_iff, text_eq_refl, lookup, insert,
  lookup-insert, contains, Result, ok, err, Bool, true, Bool-cases, Option-cases, List, [], ◌∷◌,
  some, ◌≡◌, refl, ap, ap₂, subst, sym, ◌∙◌, inl, inr, arith,
}
use server_kit.Permissions.Tuple.{ObjectRef, SubjectRef}
use server_kit.Permissions.Model.{ModelError, AuthorizationModel, UsersetExpr, resolve}
use server_kit.Permissions.Repository.{TupleRepository}
use server_kit.Permissions.Check.{
  check_inner, run, run_expr, settle, memo_key, enter, leave, remember, note_depth, count_hit,
  evaluate, max_depth, check, fresh, Observation,
}
use server_kit.Permissions.Check.Monad.{CheckCtx, Check}
use server_kit.Permissions.Check.Evaluation.{Ensures, Calls, Gives}
use server_kit.Permissions.Check.Rule.{evaluate_rule, Ensures-map}
use server_kit.Permissions.Check.Key.{memo_key-injective}
use server_kit.Permissions.Check.Reference.{denote, denote_of_Gives, IsTrue}
use server_kit.Permissions.Check.Stratified.{
  Agree, denote-eq, Calls-mono, reference, IsStratified, reference_stable,
}

module _ (m : AuthorizationModel) (repo : TupleRepository) (subject : SubjectRef)
    (Live : ObjectRef → Text → Type 0) (rank : ObjectRef → Text → ℕ)
    (s : IsStratified m repo subject Live rank) where
  truth : ObjectRef → Text → Bool
  truth o rel = reference m repo subject (suc (rank o rel)) o rel

  truth_step :
      (o : ObjectRef) (rel : Text) (e : UsersetExpr)
      → Live o rel
      → resolve m o.namespace rel ≡ ok (some e)
      → truth o rel ≡ denote repo subject truth o rel e
  unfolding truth reference
  truth_step o rel e live found =
      let (e', found', calls) = s.step o rel live in
      let same : e' ≡ e = cc in
      rw found (
        denote-eq repo subject (reference m repo subject (rank o rel)) truth o rel e (
          Calls-mono repo subject _
            (Agree repo subject (reference m repo subject (rank o rel)) truth)
            (λ o' rel' (l, lt).
              reference_stable m repo subject Live rank s (rank o rel) (suc (rank o' rel')) o' rel'
                l lt (omega arith))
            o rel e (subst (Calls repo subject _ o rel) same calls)))

  -- The memo holds truths only.
  abbrev ExactMemo : List (Text × Bool) → Type 0
  ExactMemo memo =
      (o : ObjectRef) (rel : Text) (b : Bool)
      → Live o rel
      → lookup (memo_key o rel subject) memo ≡ some b
      → b ≡ truth o rel

  -- The keys in flight are `v`.
  abbrev IsExact : List Text → List (Text × Bool) → List Text → Type 0
  IsExact v memo visiting = ExactMemo memo × (visiting ≡ v)

  -- Every pair in flight has a larger rank.
  abbrev IsBelow : List Text → ℕ → Type 0
  IsBelow v n =
      (o : ObjectRef) (rel : Text)
      → Live o rel
      → contains (memo_key o rel subject) v ≡ true
      → n < rank o rel

  -- Two live pairs of one key are one pair.
  same_pair :
      (o o' : ObjectRef) (rel rel' : Text)
      → Live o rel
      → Live o' rel'
      → memo_key o rel subject ≡ memo_key o' rel' subject
      → (o ≡ o') × (rel ≡ rel')
  same_pair o o' rel rel' l l' e =
      memo_key-injective subject o o' rel rel' (s.valid o rel l) (s.valid o' rel' l') e

  remember-ExactMemo :
      (o : ObjectRef) (rel : Text) (b : Bool) (memo : List (Text × Bool))
      → Live o rel
      → b ≡ truth o rel
      → ExactMemo memo
      → ExactMemo (insert (memo_key o rel subject) b memo)
  remember-ExactMemo o rel b memo l g i o' rel' b' l' found =
      elim (Bool-cases (text_eq (memo_key o rel subject) (memo_key o' rel' subject))) [
        | inl same ↦
            let (eo, er) = same_pair o o' rel rel' l l' ((text_eq_iff _ _).0 same) in
            let kept : b ≡ b' =
              ground
                (arith, lookup-insert (memo_key o rel subject) (memo_key o' rel' subject) b memo) in
            sym kept ∙ g ∙ ap₂ truth eo er
        | inr other ↦ i o' rel' b' l' (
            ground
              (arith, lookup-insert (memo_key o rel subject) (memo_key o' rel' subject) b memo))
      ]

  IsBelow-enter :
      (v : List Text) (o : ObjectRef) (rel : Text) (n : ℕ)
      → Live o rel
      → n < rank o rel
      → IsBelow v (rank o rel)
      → IsBelow (memo_key o rel subject ∷ v) n
  IsBelow-enter v o rel n l lt below o' rel' l' h =
      elim (Bool-cases (text_eq (memo_key o rel subject) (memo_key o' rel' subject))) [
        | inl same ↦
            let (eo, er) = same_pair o o' rel rel' l l' ((text_eq_iff _ _).0 same) in
            let e = ap₂ rank eo er in omega arith
        | inr other ↦ let k = below o' rel' l' (ground arith) in omega arith
      ]

  abbrev Computes : List Text → ObjectRef → Text → Result ModelError (Bool × CheckCtx) → Type 0
  Computes v o rel r =
      Ensures ⊥ (λ memo visiting. IsExact v memo visiting) (IsTrue repo subject truth o rel) r

  settle-Computes :
      (v : List Text) (o : ObjectRef) (rel : Text) (r : Result ModelError (Bool × CheckCtx))
      → Live o rel
      → Computes (memo_key o rel subject ∷ v) o rel r
      → Computes v o rel (settle m repo subject (memo_key o rel subject) r)
  unfolding settle remember leave
  settle-Computes v o rel (err e) l x = x
  settle-Computes v o rel (ok (b, ctx)) l ((i, e), g) = (
    (remember-ExactMemo o rel b ctx.memo l g i, rw (e, text_eq_refl (memo_key o rel subject)) refl),
    g,
  )

  run-Computes :
      (call : ObjectRef → Text → Check Bool) (v : List Text) (o : ObjectRef) (rel : Text)
      (ctx : CheckCtx)
      → Live o rel
      → IsExact v ctx.memo ctx.visiting
      → ((o' : ObjectRef) (rel' : Text) (ctx' : CheckCtx)
          → Live o' rel' × (rank o' rel' < rank o rel)
          → IsExact (memo_key o rel subject ∷ v) ctx'.memo ctx'.visiting
          → Computes (memo_key o rel subject ∷ v) o' rel' (call o' rel' ctx'))
      → Computes v o rel (run m repo subject call o rel (memo_key o rel subject) ctx)
  unfolding run run_expr enter
  run-Computes call v o rel ctx l (i, e) called =
      let (expr, found, calls) = s.step o rel l in
      let key = memo_key o rel subject in
      let c = enter m repo subject key ctx in
      rw (found, run)
        (settle-Computes v o rel (evaluate m repo subject call o rel expr c) l (
          Ensures-map ⊥ (λ memo visiting. IsExact (key ∷ v) memo visiting)
            (Gives repo subject (IsTrue repo subject truth) o rel expr)
            (IsTrue repo subject truth o rel) (evaluate m repo subject call o rel expr c)
            (λ b g.
              denote_of_Gives repo subject truth o rel expr b g
              ∙ sym (truth_step o rel expr l found))
            (evaluate_rule m repo subject call ⊥ (λ memo visiting. IsExact (key ∷ v) memo visiting)
              (λ o' rel'. Live o' rel' × (rank o' rel' < rank o rel)) (IsTrue repo subject truth)
              called o rel expr c calls (i, ap (λ w. key ∷ w) e))))

  check_inner-Computes :
      (left : ℕ) (v : List Text) (o : ObjectRef) (rel : Text) (ctx : CheckCtx)
      → Live o rel
      → rank o rel < left
      → IsBelow v (rank o rel)
      → IsExact v ctx.memo ctx.visiting
      → Computes v o rel (check_inner m repo subject left o rel ctx)
  unfolding check_inner note_depth count_hit
  check_inner-Computes zero v o rel ctx l lt below i = elim lt [ ]
  check_inner-Computes (suc left) v o rel ctx l lt below (i, e) =
      elim (Option-cases (lookup (memo_key o rel subject) ctx.memo)) [
        | inr (b, found) ↦ rw (found, check_inner) ((i, e), i o rel b l found)
        | inl missing ↦ elim (Bool-cases (contains (memo_key o rel subject) ctx.visiting)) [
          | inl cycle ↦ absurd (let k = below o rel l (rw (← e) cycle) in omega arith)
          | inr new ↦
              rw (missing, new, check_inner)
                (run-Computes (check_inner m repo subject left) v o rel
                  (note_depth m repo subject (max_depth - left) ctx) l (i, e)
                  (λ o' rel' ctx' (l', lt') i'.
                    check_inner-Computes left (memo_key o rel subject ∷ v) o' rel' ctx' l'
                      (omega arith) (IsBelow-enter v o rel (rank o' rel') l lt' below) i'))
        ]
      ]

-- On a stratified model whose ranks stay within the depth bound, `check` does not throw and answers
-- as the reference evaluator, which has no memo, no cycle guard and no order of evaluation.
pub check-reference :
    (m : AuthorizationModel) (repo : TupleRepository) (elapsed : ℕ) (o : ObjectRef) (rel : Text)
    (subject : SubjectRef) (Live : ObjectRef → Text → Type 0) (rank : ObjectRef → Text → ℕ)
    → IsStratified m repo subject Live rank
    → Live o rel
    → rank o rel ≤ max_depth
    → (seen : Observation) × (check m repo elapsed o rel subject
        ≡ ok (reference m repo subject (suc max_depth) o rel, seen))
unfolding check truth
check-reference m repo elapsed o rel subject Live rank s l bound =
    go (check_inner m repo subject (suc max_depth) o rel fresh) refl (
      check_inner-Computes m repo subject Live rank s (suc max_depth) [] o rel fresh l (omega arith)
        (λ o' rel' l' h. absurd (cc)) (λ o' rel' b l' h. absurd (cc), refl))
  where
    go :
        (r : Result ModelError (Bool × CheckCtx))
        → check_inner m repo subject (suc max_depth) o rel fresh ≡ r
        → Computes m repo subject Live rank s [] o rel r
        → (seen : Observation) × (check m repo elapsed o rel subject
            ≡ ok (reference m repo subject (suc max_depth) o rel, seen))
    go (err x) eq j = absurd j
    go (ok (b, ctx)) eq (i, g) =
        let stable =
          reference_stable m repo subject Live rank s (suc (rank o rel)) (suc max_depth) o rel l
            (omega arith) (omega arith) in
        let same = g ∙ stable in
        (
          record {
            metrics = ctx.metrics;
            duration_ms = elapsed;
            namespace = o.namespace;
            permission = rel;
            allowed = b;
          },
          rw (eq, check) (ground arith),
        )
