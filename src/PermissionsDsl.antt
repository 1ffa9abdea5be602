-- ===== src/PermissionsDsl.antt =====
-- packages/permissions-dsl.
pub mod Ast
pub mod Lower
