-- ===== src/Scim.antt =====
-- packages/scim: the filter language and its use in PATCH operations.
pub mod Ast
pub mod Tokenizer
pub mod Parser
pub mod Value
pub mod Patch
