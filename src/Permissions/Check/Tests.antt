-- ===== src/Permissions/Check/Tests.antt =====
-- Runs of the evaluator, and its theorems at concrete inputs.
use server_kit.Base.{
  ℕ, suc, ◌<◌, Text, text_eq, codes, if◌then◌else◌, ok, true, false, [], ◌∷◌, some, ◌≡◌, refl, sym,
  subst₂, arith,
}
use server_kit.Permissions.Tuple.{
  ObjectRef, is_name, is_id, object_ok, subject_ok, tuple_ok, format_subject, stringify_tuple,
}
use server_kit.Permissions.Model.{
  UsersetExpr, computed, tuple_to_userset, union, intersection, exclusion, no_children, child,
  AuthorizationModel, is_inherited, resolve,
}
use server_kit.Permissions.Repository.{TupleRepository}
use server_kit.Permissions.InMemory.{construct, as_repository}
use server_kit.Permissions.InMemory.Store.{as_repository-IsValidStore}
use server_kit.Permissions.Check.{
  memo_key, matches, read_tuple, look_up_parents, scan, has_direct_tuple, any_parent, evaluate,
  note_depth, flag_depth, count_hit, enter, leave, remember, settle, run_expr, run, check_inner,
  new_check_metrics, max_depth, check, Observation,
}
use server_kit.Permissions.Check.Evaluation.{Calls}
use server_kit.Permissions.Check.Grants.{Grants}
use server_kit.Permissions.Check.Soundness.{check-Grants}
use server_kit.Permissions.Check.Stratified.{reference, IsStratified}
use server_kit.Permissions.Check.Exact.{check-reference}
use server_kit.Permissions.Sample.{model, users, folders, docs, readme, alice, owned, user_parent}

opened : Unit {0}
unfolding is_name is_id object_ok subject_ok tuple_ok format_subject stringify_tuple construct
    is_inherited resolve as_repository memo_key matches read_tuple look_up_parents scan
    has_direct_tuple any_parent evaluate note_depth flag_depth count_hit enter leave remember settle
    run_expr run check_inner new_check_metrics check
opened = tt

abbrev store : TupleRepository
store = as_repository (construct (owned ∷ user_parent ∷ []))

abbrev view : Text
view = codes "view"

abbrev seen : Observation
seen = record {
  metrics = record {
    tuple_reads = 2;
    parent_lookups = 0;
    cache_hits = 0;
    deepest = 1;
    hit_max_depth = false;
  };
  duration_ms = 7;
  namespace = codes "doc";
  permission = view;
  allowed = true;
}

view_allowed : check model store 7 readme view alice ≡ ok (true, seen)
unfolding opened
view_allowed = refl

-- The same documents with a permission that is a union: an owner or a viewer of a parent may comment.
abbrev open_model : AuthorizationModel
open_model = record {
  by_name =
      users
      ∷ folders
      ∷ record docs {
        permissions =
            (
              codes "comment",
              union (
                  child (computed (codes "owner"))
                    (child (tuple_to_userset (codes "parent") (codes "viewer")) no_children)),
            )
            ∷ [];
      }
      ∷ [];
}

abbrev seen_comment : Observation
seen_comment = record {
  metrics = record {
    tuple_reads = 1;
    parent_lookups = 0;
    cache_hits = 0;
    deepest = 1;
    hit_max_depth = false;
  };
  duration_ms = 7;
  namespace = codes "doc";
  permission = codes "comment";
  allowed = true;
}

check-Grants_example : Grants open_model store alice readme (codes "comment")
unfolding opened
check-Grants_example =
    check-Grants open_model store 7 readme (codes "comment") alice seen_comment
      (as_repository-IsValidStore (construct (owned ∷ user_parent ∷ []))
        ((refl, refl), ((refl, refl), tt)))
      (tt, (tt, (((tt, (tt, tt)), tt), tt))) refl refl

-- The pairs that the evaluation of `view` reaches, and their ranks.
data Reached : Type 0 where
  viewing owning banning : Reached

abbrev name_of : Reached → Text
name_of viewing = view
name_of owning = codes "owner"
name_of banning = codes "banned"

abbrev Live : ObjectRef → Text → Type 0
Live o rel = (k : Reached) × (o ≡ readme) × (rel ≡ name_of k)

abbrev rank : ObjectRef → Text → ℕ
rank o rel = if text_eq rel view then 1 else 0

abbrev Step : ObjectRef → Text → Type 0
Step o rel =
    (e : UsersetExpr) × (resolve model o.namespace rel ≡ ok (some e))
    × Calls store alice (λ o' rel'. Live o' rel' × (rank o' rel' < rank o rel)) o rel e

Step-reached : (k : Reached) → Step readme (name_of k)
unfolding opened Calls
Step-reached viewing =
    (_, refl, (((owning, refl, refl), omega arith), ((banning, refl, refl), omega arith)))
Step-reached owning = (_, refl, (tt, tt))
Step-reached banning = (_, refl, tt)

sample-IsStratified : IsStratified model store alice Live rank
unfolding is_name is_id object_ok
sample-IsStratified = record {
  valid = λ o rel (k, eo, er). rw eo;
  step = λ o rel (k, eo, er). subst₂ Step (sym eo) (sym er) (Step-reached k);
}

check-reference_example :
    (got : Observation) × (check model store 7 readme view alice
      ≡ ok (reference model store alice (suc max_depth) readme view, got))
check-reference_example =
    check-reference model store 7 readme view alice Live rank sample-IsStratified
      (viewing, refl, refl) (omega arith)

-- A cycle: `p` is `q` or a member, and `q` is `p` and a member. On its own each of them is allowed
-- to a member. But inside `p` the call of `q` meets `p` in flight, is denied, and is remembered, so
-- `r`, which is `p` without `q`, is allowed too.
abbrev cyclic : AuthorizationModel
cyclic = record {
  by_name =
      record { name = codes "user"; relations = []; permissions = [] }
      ∷ record {
        name = codes "doc";
        relations = (codes "member", record { subjects = codes "user" ∷ [] }) ∷ [];
        permissions =
            (
              codes "p",
              union (child (computed (codes "q")) (child (computed (codes "member")) no_children)),
            )
            ∷ (
              codes "q",
              intersection
                  (child (computed (codes "p")) (child (computed (codes "member")) no_children)),
            )
            ∷ (codes "r", exclusion (computed (codes "p")) (computed (codes "q")))
            ∷ [];
      }
      ∷ [];
}

membership : TupleRepository
membership =
    as_repository
      (construct (record { object = readme; relation = codes "member"; subject = alice } ∷ []))

abbrev Allows : Text → Type 0
Allows rel = (got : Observation) × (check cyclic membership 0 readme rel alice ≡ ok (true, got))

cycle_remembered : Allows (codes "p") × Allows (codes "q") × Allows (codes "r")
unfolding opened membership
cycle_remembered = ((_, refl), (_, refl), (_, refl))
