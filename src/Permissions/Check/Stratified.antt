-- ===== src/Permissions/Check/Stratified.antt =====
-- The reference evaluator, and the models over which no cycle is reachable.
use server_kit.Base.{
  ℕ, zero, suc, ◌<◌, Text, Result, ok, All, some_of, Bool, true, false, not, ◌&&◌, ◌||◌, List, [],
  ◌∷◌, Option, some, ◌≡◌, refl, ap₂, arith,
}
use server_kit.Permissions.Tuple.{
  ObjectRef, SubjectRef, concrete, wildcard, userset, RelationTuple, object_ok,
}
use server_kit.Permissions.Model.{
  ModelError, AuthorizationModel, UsersetExpr, direct, computed, tuple_to_userset, union,
  intersection, exclusion, Children, no_children, child, resolve,
}
use server_kit.Permissions.Repository.{TupleRepository}
use server_kit.Permissions.Check.{matches}
use server_kit.Permissions.Check.Reference.{member_holds, denote, denote_any, denote_all}
use server_kit.Permissions.Check.Evaluation.{CallsOf, Calls, AllCalls}

module _ (repo : TupleRepository) (subject : SubjectRef) where
  -- Two assignments that agree on the calls of an expression denote it alike.
  module _ (f g : ObjectRef → Text → Bool) where
    abbrev pub Agree : ObjectRef → Text → Type 0
    Agree o rel = f o rel ≡ g o rel

    member_cong :
        (s : SubjectRef)
        → CallsOf repo subject Agree s
        → member_holds repo subject f s ≡ member_holds repo subject g s
    member_cong (userset ns id rel) h = h
    member_cong (concrete ns id) h = refl
    member_cong (wildcard ns) h = refl

    scan_cong :
        (ts : List RelationTuple)
        → All (λ t. CallsOf repo subject Agree t.subject) ts
        → some_of (λ t. matches subject t.subject || member_holds repo subject f t.subject) ts
          ≡ some_of (λ t. matches subject t.subject || member_holds repo subject g t.subject) ts
    scan_cong [] h = refl
    scan_cong (t ∷ ts) (h, hs) = ground (arith, member_cong t.subject h, scan_cong ts hs)

    walk_cong :
        (cr : Text) (ps : List ObjectRef)
        → All (λ p. Agree p cr) ps
        → some_of (λ p. f p cr) ps ≡ some_of (λ p. g p cr) ps
    walk_cong cr [] h = refl
    walk_cong cr (p ∷ ps) (h, hs) = ground (arith, walk_cong cr ps hs)

    mutual
      unfolding Calls denote

      denote_cong :
          (o : ObjectRef) (rel : Text) (e : UsersetExpr)
          → Calls repo subject Agree o rel e
          → denote repo subject f o rel e ≡ denote repo subject g o rel e
      denote_cong o rel direct h = scan_cong _ h
      denote_cong o rel (computed r) h = h
      denote_cong o rel (tuple_to_userset tr cr) h = walk_cong cr _ h
      denote_cong o rel (union es) h = denote_any_cong o rel es h
      denote_cong o rel (intersection es) h = denote_all_cong o rel es h
      denote_cong o rel (exclusion base subtract) (h, k) =
          ap₂ (λ a b. a && not b) (denote_cong o rel base h) (denote_cong o rel subtract k)

      denote_any_cong :
          (o : ObjectRef) (rel : Text) (es : Children)
          → AllCalls repo subject Agree o rel es
          → denote_any repo subject f o rel es ≡ denote_any repo subject g o rel es
      denote_any_cong o rel no_children h = refl
      denote_any_cong o rel (child e es) (h, hs) =
          ap₂ (λ a b. a || b) (denote_cong o rel e h) (denote_any_cong o rel es hs)

      denote_all_cong :
          (o : ObjectRef) (rel : Text) (es : Children)
          → AllCalls repo subject Agree o rel es
          → denote_all repo subject f o rel es ≡ denote_all repo subject g o rel es
      denote_all_cong o rel no_children h = refl
      denote_all_cong o rel (child e es) (h, hs) =
          ap₂ (λ a b. a && b) (denote_cong o rel e h) (denote_all_cong o rel es hs)

    pub denote-eq :
        (o : ObjectRef) (rel : Text) (e : UsersetExpr)
        → Calls repo subject Agree o rel e
        → denote repo subject f o rel e ≡ denote repo subject g o rel e
    denote-eq = denote_cong

  -- Weakening of what is known of the calls.
  module _ (V W : ObjectRef → Text → Type 0)
      (imp : (o : ObjectRef) (rel : Text) → V o rel → W o rel) where
    of_imp : (s : SubjectRef) → CallsOf repo subject V s → CallsOf repo subject W s
    of_imp (userset ns id rel) h = imp _ rel h
    of_imp (concrete ns id) h = tt
    of_imp (wildcard ns) h = tt

    scan_imp :
        (ts : List RelationTuple)
        → All (λ t. CallsOf repo subject V t.subject) ts
        → All (λ t. CallsOf repo subject W t.subject) ts
    scan_imp [] h = tt
    scan_imp (t ∷ ts) (h, hs) = (of_imp t.subject h, scan_imp ts hs)

    walk_imp : (cr : Text) (ps : List ObjectRef) → All (λ p. V p cr) ps → All (λ p. W p cr) ps
    walk_imp cr [] h = tt
    walk_imp cr (p ∷ ps) (h, hs) = (imp p cr h, walk_imp cr ps hs)

    mutual
      unfolding Calls

      Calls-imp :
          (o : ObjectRef) (rel : Text) (e : UsersetExpr)
          → Calls repo subject V o rel e
          → Calls repo subject W o rel e
      Calls-imp o rel direct h = scan_imp _ h
      Calls-imp o rel (computed r) h = imp o r h
      Calls-imp o rel (tuple_to_userset tr cr) h = walk_imp cr _ h
      Calls-imp o rel (union es) h = AllCalls-imp o rel es h
      Calls-imp o rel (intersection es) h = AllCalls-imp o rel es h
      Calls-imp o rel (exclusion base subtract) (h, k) =
          (Calls-imp o rel base h, Calls-imp o rel subtract k)

      AllCalls-imp :
          (o : ObjectRef) (rel : Text) (es : Children)
          → AllCalls repo subject V o rel es
          → AllCalls repo subject W o rel es
      AllCalls-imp o rel no_children h = tt
      AllCalls-imp o rel (child e es) (h, hs) = (Calls-imp o rel e h, AllCalls-imp o rel es hs)

    pub Calls-mono :
        (o : ObjectRef) (rel : Text) (e : UsersetExpr)
        → Calls repo subject V o rel e
        → Calls repo subject W o rel e
    Calls-mono = Calls-imp

module _ (m : AuthorizationModel) (repo : TupleRepository) (subject : SubjectRef) where
  -- What a resolved name denotes; a name that does not resolve to an expression denotes nothing.
  abbrev denote_found :
      (ObjectRef → Text → Bool) → ObjectRef → Text → Result ModelError (Option UsersetExpr) → Bool
  denote_found truth o rel (ok (some e)) = denote repo subject truth o rel e
  denote_found truth o rel _ = false

  -- The recursive evaluation to a depth.
  unfoldable pub reference : ℕ → ObjectRef → Text → Bool
  reference zero o rel = false
  reference (suc n) o rel = denote_found (reference n) o rel (resolve m o.namespace rel)

  -- The pairs that an evaluation can reach resolve to expressions, their objects are valid, and each
  -- calls only pairs of a smaller rank, none above the depth bound. So no cycle is reachable.
  pub record IsStratified (Live : ObjectRef → Text → Type 0) (rank : ObjectRef → Text → ℕ)
      : Type 0 where
    pub valid : (o : ObjectRef) (rel : Text) → Live o rel → object_ok o ≡ true
    pub step :
        (o : ObjectRef) (rel : Text)
        → Live o rel
        → (e : UsersetExpr) × (resolve m o.namespace rel ≡ ok (some e))
          × Calls repo subject (λ o' rel'. Live o' rel' × (rank o' rel' < rank o rel)) o rel e

  module _ (Live : ObjectRef → Text → Type 0) (rank : ObjectRef → Text → ℕ)
      (s : IsStratified Live rank) where
    -- Beyond the rank more depth changes nothing.
    pub reference_stable :
        (n k : ℕ) (o : ObjectRef) (rel : Text)
        → Live o rel
        → rank o rel < n
        → rank o rel < k
        → reference n o rel ≡ reference k o rel
    unfolding reference
    reference_stable zero k o rel live h h' = elim h [ ]
    reference_stable (suc n) zero o rel live h h' = elim h' [ ]
    reference_stable (suc n) (suc k) o rel live h h' =
        let (e, found, calls) = s.step o rel live in
        rw found (
          denote-eq repo subject (reference n) (reference k) o rel e (
            Calls-mono repo subject _ (Agree repo subject (reference n) (reference k))
              (λ o' rel' (l, lt). reference_stable n k o' rel' l (omega arith) (omega arith)) o rel
              e calls))
