-- ===== src/PermissionsDsl/Lower/Meaning.antt =====
-- What the expressions of the language and those of the model stand for, given what the names and the
-- walks in them stand for: the description that lowerExpr of lower.ts is compared with.
use server_kit.Base.{Text, Bool, true, false, not, ◌&&◌, ◌||◌, ◌≡◌, refl, ap₂}
use server_kit.Permissions.Model
use server_kit.Permissions.Model.{
  UsersetExpr, direct, Children, no_children, child, computed, tuple_to_userset,
}
use server_kit.PermissionsDsl.Ast.{
  ExprNode, ref, ttu, union, intersection, exclusion, Exprs, no_exprs, expr,
}
use server_kit.PermissionsDsl.Lower.{lower_expr, lower_children}

module _ (named : Text → Bool) (walked : Text → Text → Bool) where
  -- What an expression of the language allows.
  abbrev mutual
    pub allows : ExprNode → Bool
    allows (ref loc name) = named name
    allows (ttu loc tr cr) = walked tr cr
    allows (union loc es) = allows_any es
    allows (intersection loc es) = allows_all es
    allows (exclusion loc base subtract) = allows base && not (allows subtract)

    allows_any : Exprs → Bool
    allows_any no_exprs = false
    allows_any (expr e es) = allows e || allows_any es

    allows_all : Exprs → Bool
    allows_all no_exprs = true
    allows_all (expr e es) = allows e && allows_all es

  -- What an expression of the model permits; no expression of the language stands for `direct`.
  abbrev mutual
    pub permits : UsersetExpr → Bool
    permits direct = false
    permits (computed name) = named name
    permits (tuple_to_userset tr cr) = walked tr cr
    permits (Model.union es) = permits_any es
    permits (Model.intersection es) = permits_all es
    permits (Model.exclusion base subtract) = permits base && not (permits subtract)

    permits_any : Children → Bool
    permits_any no_children = false
    permits_any (child e es) = permits e || permits_any es

    permits_all : Children → Bool
    permits_all no_children = true
    permits_all (child e es) = permits e && permits_all es

  mutual
    unfolding lower_expr

    pub permits-lower_expr : (e : ExprNode) → permits (lower_expr e) ≡ allows e
    permits-lower_expr (ref loc name) = refl
    permits-lower_expr (ttu loc tr cr) = refl
    permits-lower_expr (union loc es) = any-lower_children es
    permits-lower_expr (intersection loc es) = all-lower_children es
    permits-lower_expr (exclusion loc base subtract) =
        ap₂ (λ a b. a && not b) (permits-lower_expr base) (permits-lower_expr subtract)

    any-lower_children : (es : Exprs) → permits_any (lower_children es) ≡ allows_any es
    any-lower_children no_exprs = refl
    any-lower_children (expr e es) =
        ap₂ (λ a b. a || b) (permits-lower_expr e) (any-lower_children es)

    all-lower_children : (es : Exprs) → permits_all (lower_children es) ≡ allows_all es
    all-lower_children no_exprs = refl
    all-lower_children (expr e es) =
        ap₂ (λ a b. a && b) (permits-lower_expr e) (all-lower_children es)
