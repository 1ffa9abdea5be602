-- ===== src/Permissions/Check/Reference.antt =====
-- A reference evaluator: the rewrite rules read as Boolean equations, with no memo, no cycle guard
-- and no order of evaluation.
use server_kit.Base.{
  Text, some_of, Bool, true, false, not, ◌&&◌, ◌||◌, List, [], ◌∷◌, ◌≡◌, sym, inl, inr, arith,
}
use server_kit.Permissions.Tuple.{ObjectRef, SubjectRef, concrete, wildcard, userset, RelationTuple}
use server_kit.Permissions.Model.{
  UsersetExpr, direct, computed, tuple_to_userset, union, intersection, exclusion, Children,
  no_children, child,
}
use server_kit.Permissions.Repository.{TupleRepository}
use server_kit.Permissions.Check.{matches}
use server_kit.Permissions.Check.Evaluation.{Contributes, Scans, Walks, Gives, AnyGives, AllGives}

module _ (repo : TupleRepository) (subject : SubjectRef) where
  module _ (truth : ObjectRef → Text → Bool) where
    abbrev pub member_holds : SubjectRef → Bool
    member_holds (userset ns id rel) = truth (record { namespace = ns; id = id }) rel
    member_holds _ = false

    unfoldable mutual
      pub denote : ObjectRef → Text → UsersetExpr → Bool
      denote o rel direct =
          some_of (λ t. matches subject t.subject || member_holds t.subject)
            (repo.list_by_object_relation o.namespace o.id rel)
      denote o rel (computed r) = truth o r
      denote o rel (tuple_to_userset tr cr) =
          some_of (λ p. truth p cr) (repo.list_objects_related_by o.namespace o.id tr)
      denote o rel (union es) = denote_any o rel es
      denote o rel (intersection es) = denote_all o rel es
      denote o rel (exclusion base subtract) = denote o rel base && not (denote o rel subtract)

      pub denote_any : ObjectRef → Text → Children → Bool
      denote_any o rel no_children = false
      denote_any o rel (child e es) = denote o rel e || denote_any o rel es

      pub denote_all : ObjectRef → Text → Children → Bool
      denote_all o rel no_children = true
      denote_all o rel (child e es) = denote o rel e && denote_all o rel es

    -- What an evaluation gives, whose calls give the truth, is the denotation.
    abbrev pub IsTrue : ObjectRef → Text → Bool → Type 0
    IsTrue o rel b = b ≡ truth o rel

    scan_step-eq :
        (s : SubjectRef) (b : Bool) → Contributes repo subject IsTrue s b → member_holds s ≡ b
    scan_step-eq (userset ns id rel) b h = sym h
    scan_step-eq (concrete ns id) b h = sym h
    scan_step-eq (wildcard ns) b h = sym h

    Scans-eq :
        (ts : List RelationTuple) (b : Bool)
        → Scans repo subject IsTrue ts b
        → b ≡ some_of (λ t. matches subject t.subject || member_holds t.subject) ts
    Scans-eq [] b h = h
    Scans-eq (t ∷ ts) b (inl (found, e)) = ground arith
    Scans-eq (t ∷ ts) b (inr (inl (no_match, c, e))) = ground (arith, scan_step-eq t.subject true c)
    Scans-eq (t ∷ ts) b (inr (inr (no_match, c, rest))) =
        ground (arith, scan_step-eq t.subject false c, Scans-eq ts b rest)

    Walks-eq :
        (cr : Text) (ps : List ObjectRef) (b : Bool)
        → Walks repo subject IsTrue cr ps b
        → b ≡ some_of (λ p. truth p cr) ps
    Walks-eq cr [] b h = h
    Walks-eq cr (p ∷ ps) b (inl (g, e)) = ground arith
    Walks-eq cr (p ∷ ps) b (inr (g, rest)) = ground (arith, Walks-eq cr ps b rest)

    mutual
      unfolding Gives denote

      Gives-eq :
          (o : ObjectRef) (rel : Text) (e : UsersetExpr) (b : Bool)
          → Gives repo subject IsTrue o rel e b
          → b ≡ denote o rel e
      Gives-eq o rel direct b g = Scans-eq _ b g
      Gives-eq o rel (computed r) b g = g
      Gives-eq o rel (tuple_to_userset tr cr) b g = Walks-eq cr _ b g
      Gives-eq o rel (union es) b g = AnyGives-eq o rel es b g
      Gives-eq o rel (intersection es) b g = AllGives-eq o rel es b g
      Gives-eq o rel (exclusion base subtract) b (inl (g, (c, x, e))) =
          ground (arith, Gives-eq o rel base true g, Gives-eq o rel subtract c x)
      Gives-eq o rel (exclusion base subtract) b (inr (g, e)) =
          ground (arith, Gives-eq o rel base false g)

      AnyGives-eq :
          (o : ObjectRef) (rel : Text) (es : Children) (b : Bool)
          → AnyGives repo subject IsTrue o rel es b
          → b ≡ denote_any o rel es
      AnyGives-eq o rel no_children b g = g
      AnyGives-eq o rel (child e es) b (inl (g, x)) = ground (arith, Gives-eq o rel e true g)
      AnyGives-eq o rel (child e es) b (inr (g, x)) =
          ground (arith, Gives-eq o rel e false g, AnyGives-eq o rel es b x)

      AllGives-eq :
          (o : ObjectRef) (rel : Text) (es : Children) (b : Bool)
          → AllGives repo subject IsTrue o rel es b
          → b ≡ denote_all o rel es
      AllGives-eq o rel no_children b g = g
      AllGives-eq o rel (child e es) b (inl (g, x)) =
          ground (arith, Gives-eq o rel e true g, AllGives-eq o rel es b x)
      AllGives-eq o rel (child e es) b (inr (g, x)) = ground (arith, Gives-eq o rel e false g)

    pub denote_of_Gives :
        (o : ObjectRef) (rel : Text) (e : UsersetExpr) (b : Bool)
        → Gives repo subject IsTrue o rel e b
        → b ≡ denote o rel e
    denote_of_Gives = Gives-eq
