-- ===== src/Examples.antt =====
-- The theorems at concrete inputs.
mod Gateway
mod ControlPlane
mod Store
mod Authorisation
mod Connections
mod Publication
mod Users
mod Operations
