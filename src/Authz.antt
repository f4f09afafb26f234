-- ===== src/Authz.antt =====
-- Package authz: the enforcement point that services share.
pub mod Grant
pub mod Principal
pub mod Claims
pub mod Surface
pub mod Permissions
pub mod Guard
pub mod Startup
pub mod Transport
