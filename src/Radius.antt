-- ===== src/Radius.antt =====
-- RADIUS clients and change of authorization: naco/radius/.
pub mod Clients
pub mod Vendors
pub mod Coa
pub mod Reevaluate
