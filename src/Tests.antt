-- ===== src/Tests.antt =====
-- Each result at a concrete input, where its hypotheses hold.
mod Access
mod Addresses
mod Limits
mod Wire
mod Coa
mod SignIn
