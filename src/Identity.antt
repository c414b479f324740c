-- ===== src/Identity.antt =====
-- services/identity-service.
pub mod Model
pub mod Sessions
pub mod Otp
pub mod Permissions
pub mod Roles
mod Examples
