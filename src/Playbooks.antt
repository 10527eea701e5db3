-- ===== src/Playbooks.antt =====
-- apps/api/app/playbooks: what the API does for a run of a playbook.
pub mod Documents
pub mod Walk
pub mod Render
pub mod Effects
pub mod Webhooks
