-- ===== src/Permissions.antt =====
-- packages/permissions: relation tuples, the authorization model and the Check evaluator.
pub mod Tuple
pub mod Model
pub mod Repository
pub mod Check
pub mod InMemory
pub mod Sample
