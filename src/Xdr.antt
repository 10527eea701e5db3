-- ===== src/Xdr.antt =====
-- The endpoint service: apps/xdr_rico/app.
pub mod Models
pub mod Store
pub mod Enrollment
pub mod Actions
pub mod Events
pub mod Service
pub mod Correlation
