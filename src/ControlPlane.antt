-- ===== src/ControlPlane.antt =====
-- The control plane: control-plane/internal.
pub mod Model
pub mod Policy
pub mod PolicyStore
pub mod Gateways
pub mod Requests
pub mod Authorize
pub mod DeviceCerts
pub mod Records
pub mod Credentials
pub mod Resources
pub mod Config
pub mod Tokens
pub mod DeviceIssue
pub mod Users
pub mod RateLimit
pub mod PolicyAdmin
