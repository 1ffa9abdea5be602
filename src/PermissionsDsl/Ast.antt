-- ===== src/PermissionsDsl/Ast.antt =====
-- packages/permissions-dsl/src/ast.ts.
use server_kit.Base.{ℕ, Text, Bool, List, Option}

pub record SourceSpan : Type 0 where
  pub start : ℕ
  pub end : ℕ

mutual
  pub data ExprNode : Type 0 where
    ref : SourceSpan → (name : Text) → ExprNode
    ttu : SourceSpan → (tuple_relation computed_relation : Text) → ExprNode
    union intersection : SourceSpan → Exprs → ExprNode
    exclusion : SourceSpan → (base subtract : ExprNode) → ExprNode

  pub data Exprs : Type 0 where
    no_exprs : Exprs
    expr : ExprNode → Exprs → Exprs

pub record SubjectTypeNode : Type 0 where
  pub namespace : Text
  pub relation : Option Text
  pub wildcard : Bool
  pub loc : SourceSpan

pub data MemberNode : Type 0 where
  relation : (name : Text) → (name_loc : SourceSpan) → List SubjectTypeNode → MemberNode
  permission : (name : Text) → (name_loc : SourceSpan) → ExprNode → MemberNode

pub record NamespaceNode : Type 0 where
  pub name : Text
  pub name_loc : SourceSpan
  pub members : List MemberNode

pub record FileNode : Type 0 where
  pub namespaces : List NamespaceNode
  pub loc : SourceSpan
