-- ===== src/Tacacs.antt =====
-- Device administration over TACACS+: naco/tacacs/.
pub mod Wire
pub mod Authz
pub mod Server
pub mod Connections
pub mod Dispatch
pub mod Records
