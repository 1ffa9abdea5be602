-- ===== src/Authentication.antt =====
-- packages/authentication.
pub mod Otp
pub mod Types
pub mod Challenges
pub mod Sessions
