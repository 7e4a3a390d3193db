-- ===== src/Policy.antt =====
-- naco/policy: what a decision is made on, the conditions, and first-match evaluation.
pub mod Context
pub mod Conditions
pub mod Attributes
pub mod Engine
