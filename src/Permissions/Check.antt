-- ===== src/Permissions/Check.antt =====
-- packages/permissions/src/check.ts and check.metrics.ts: the Check evaluator, with its memo, its
-- cycle guard, its depth bound and its counters.
pub mod Monad
pub mod Evaluation
pub mod Rule
pub mod Key
pub mod Positive
pub mod Grants
pub mod Soundness
pub mod Reference
pub mod Stratified
pub mod Exact
pub mod Walk
mod Tests
use server_kit.Base.{
  ℕ, zero, suc, ◌+◌, ◌-◌, Text, text_eq, lookup, insert, contains, remove, Result, ok, err, ltb,
  Bool, true, false, not, ◌&&◌, ◌||◌, if◌then◌else◌, List, [], ◌∷◌, ◌++◌, Option, some, none,
}
use server_kit.Permissions.Tuple.{
  ObjectRef, SubjectRef, concrete, wildcard, userset, RelationTuple, format_subject,
}
use server_kit.Permissions.Model.{
  UsersetExpr, direct, computed, tuple_to_userset, union, intersection, exclusion, Children,
  no_children, child, ModelError, AuthorizationModel, resolve,
}
use server_kit.Permissions.Repository.{TupleRepository}
use Monad.{CheckMetrics, CheckCtx, Check, ◌>>=◌, ◌>>◌, pure}

abbrev pub max_depth : ℕ
max_depth = 32

unfoldable pub new_check_metrics : CheckMetrics
new_check_metrics = record {
  tuple_reads = 0;
  parent_lookups = 0;
  cache_hits = 0;
  deepest = 0;
  hit_max_depth = false;
}

unfoldable pub memo_key : ObjectRef → Text → SubjectRef → Text
memo_key o relation subject =
    o.namespace ++ b':' ∷ (o.id ++ b'.' ∷ (relation ++ b'@' ∷ format_subject subject))

-- Cases 1 and 2 of `hasDirectTuple`: an exact match, or a wildcard of the subject's namespace.
unfoldable pub matches : SubjectRef → SubjectRef → Bool
matches (concrete ns id) (concrete ns' id') = text_eq ns' ns && text_eq id' id
matches (concrete ns id) (wildcard ns') = text_eq ns' ns
matches _ _ = false

pub read_tuple : Check (Unit {0})
read_tuple ctx = ok (
  tt,
  record ctx { metrics = record (ctx.metrics) { tuple_reads = ctx.metrics.tuple_reads + 1 } },
)

pub look_up_parents : Check (Unit {0})
look_up_parents ctx = ok (
  tt,
  record ctx { metrics = record (ctx.metrics) { parent_lookups = ctx.metrics.parent_lookups + 1 } },
)

module _ (m : AuthorizationModel) (repo : TupleRepository) (subject : SubjectRef) where
  -- `evaluate` and its loops, over the recursive call one level down.
  module _ (call : ObjectRef → Text → Check Bool) where
    -- The loop of `hasDirectTuple` over the stored tuples.
    pub scan : List RelationTuple → Check Bool
    scan [] = pure false
    scan (t ∷ ts) = if matches subject t.subject then pure true else elim (t.subject) [
      | userset ns id rel ↦ do
        allowed ← call (record { namespace = ns; id = id }) rel
        if allowed then pure true else scan ts
      | _ ↦ scan ts
    ]

    pub has_direct_tuple : ObjectRef → Text → Check Bool
    has_direct_tuple o relation = do
      read_tuple
      scan (repo.list_by_object_relation o.namespace o.id relation)

    -- The loop of `tupleToUserset` over the parents.
    pub any_parent : Text → List ObjectRef → Check Bool
    any_parent relation [] = pure false
    any_parent relation (p ∷ ps) = do
      allowed ← call p relation
      if allowed then pure true else any_parent relation ps

    mutual
      pub evaluate : ObjectRef → Text → UsersetExpr → Check Bool
      evaluate o relation direct = has_direct_tuple o relation
      evaluate o relation (computed rel) = call o rel
      evaluate o relation (tuple_to_userset tr cr) = do
        look_up_parents
        any_parent cr (repo.list_objects_related_by o.namespace o.id tr)
      evaluate o relation (union es) = evaluate_any o relation es
      evaluate o relation (intersection es) = evaluate_all o relation es
      evaluate o relation (exclusion base subtract) = do
        allowed ← evaluate o relation base
        if allowed then (evaluate o relation subtract >>= λ b. pure (not b)) else pure false

      pub evaluate_any : ObjectRef → Text → Children → Check Bool
      evaluate_any o relation no_children = pure false
      evaluate_any o relation (child e es) = do
        allowed ← evaluate o relation e
        if allowed then pure true else evaluate_any o relation es

      pub evaluate_all : ObjectRef → Text → Children → Check Bool
      evaluate_all o relation no_children = pure true
      evaluate_all o relation (child e es) = do
        allowed ← evaluate o relation e
        if allowed then evaluate_all o relation es else pure false

  -- Entering a level: `metrics.maxDepth`, and the flag beyond the bound.
  pub note_depth : ℕ → CheckCtx → CheckCtx
  note_depth depth ctx = record ctx {
    metrics = record (ctx.metrics) {
      deepest = if ltb ctx.metrics.deepest depth then depth else ctx.metrics.deepest;
    };
  }

  pub flag_depth : CheckCtx → CheckCtx
  flag_depth ctx = record ctx { metrics = record (ctx.metrics) { hit_max_depth = true } }

  pub count_hit : CheckCtx → CheckCtx
  count_hit ctx = record ctx {
    metrics = record (ctx.metrics) { cache_hits = ctx.metrics.cache_hits + 1 };
  }

  pub enter : Text → CheckCtx → CheckCtx
  enter key ctx = record ctx { visiting = key ∷ ctx.visiting }

  pub leave : Text → CheckCtx → CheckCtx
  leave key ctx = record ctx { visiting = remove key ctx.visiting }

  pub remember : Text → Bool → CheckCtx → CheckCtx
  remember key result ctx = record ctx { memo = insert key result ctx.memo }

  -- Once the expression is evaluated, the key is left and the result kept.
  pub settle : Text → Result ModelError (Bool × CheckCtx) → Result ModelError (Bool × CheckCtx)
  settle key (err e) = err e
  settle key (ok (result, ctx)) = ok (result, remember key result (leave key ctx))

  -- The value of an inherited property is no expression: its evaluation is `undefined`, which
  -- denies, and which the memo does not keep.
  pub run_expr :
      (ObjectRef → Text → Check Bool) → ObjectRef → Text → Text → Option UsersetExpr → Check Bool
  run_expr call o rel key none ctx = ok (false, leave key (enter key ctx))
  run_expr call o rel key (some expr) ctx = settle key (evaluate call o rel expr (enter key ctx))

  -- The part of `checkInner` under the guards.
  pub run : (ObjectRef → Text → Check Bool) → ObjectRef → Text → Text → Check Bool
  run call o rel key ctx = elim (resolve m o.namespace rel) [
    | err e ↦ err e
    | ok found ↦ run_expr call o rel key found ctx
  ]

  -- `checkInner` with `left` more levels below the bound, so at the depth `max_depth + 1 - left`.
  pub check_inner : ℕ → ObjectRef → Text → Check Bool
  check_inner zero o rel ctx = ok (false, flag_depth (note_depth (max_depth + 1) ctx))
  check_inner (suc left) o rel ctx =
      let ctx' = note_depth (max_depth - left) ctx in
      let key = memo_key o rel subject in
      elim (lookup key ctx'.memo) [
        | some cached ↦ ok (cached, count_hit ctx')
        | none ↦
            if contains key ctx'.visiting
            then ok (false, ctx')
            else run (check_inner left) o rel key ctx'
      ]

abbrev pub fresh : CheckCtx
fresh = record { memo = []; visiting = []; metrics = new_check_metrics }

-- What the sink records.
pub record Observation : Type 0 where
  pub metrics : CheckMetrics
  pub duration_ms : ℕ
  pub namespace : Text
  pub permission : Text
  pub allowed : Bool

-- `check`, with the elapsed time that the clock gives: the answer and the recorded observation.
pub check :
    AuthorizationModel
    → TupleRepository
    → ℕ
    → ObjectRef
    → Text
    → SubjectRef
    → Result ModelError (Bool × Observation)
check m repo elapsed o relation subject =
    elim (check_inner m repo subject (suc max_depth) o relation fresh) [
      | err e ↦ err e
      | ok (allowed, ctx) ↦ ok (
        allowed,
        record {
          metrics = ctx.metrics;
          duration_ms = elapsed;
          namespace = o.namespace;
          permission = relation;
          allowed = allowed;
        },
      )
    ]
