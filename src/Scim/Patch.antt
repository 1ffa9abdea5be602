-- ===== src/Scim/Patch.antt =====
-- packages/scim/src/patch/patch.applier.ts.
pub mod Path
pub mod Evaluation
pub mod Operations
