-- ===== src/Aaa.antt =====
-- Who and what asks for access, and what is answered: naco/auth/identity.py, naco/aaa/subject.py and
-- naco/aaa/service.py.
pub mod Identity
pub mod Subject
pub mod Service
