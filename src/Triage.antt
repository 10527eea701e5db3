-- ===== src/Triage.antt =====
-- apps/api/app/soc/triage: what the triage engine concludes from an incident.
pub mod Models
pub mod Read
pub mod Evidence
pub mod Mitre
pub mod Candidates
pub mod Templates
pub mod Engine
