-- ===== src/Auth.antt =====
-- apps/api/app/auth: sessions and permissions of the API's users.
pub mod Sessions
pub mod Permissions
pub mod RateLimit
