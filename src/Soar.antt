-- ===== src/Soar.antt =====
-- The playbook service: apps/soar_skipper/app.
pub mod Models
pub mod Runtime
pub mod Runs
pub mod Store
pub mod Service
pub mod Defaults
