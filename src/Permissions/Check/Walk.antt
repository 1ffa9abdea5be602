-- ===== src/Permissions/Check/Walk.antt =====
-- A walk to a parent whose namespace does not declare the computed relation.
use server_kit.Permissions.Check.Monad.{Check}
