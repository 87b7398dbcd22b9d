-- ===== src/System.antt =====
-- What the parts of the program do together.
pub mod Revocation
pub mod Publication
pub mod Identity
pub mod Access
