-- ===== src/Api.antt =====
-- naco/api: who may sign in and who may call.
pub mod Totp
pub mod Sessions
pub mod Access
pub mod SignIn
pub mod Audit
