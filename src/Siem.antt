-- ===== src/Siem.antt =====
-- apps/siem_kowalski/app: events, the incidents that they raise, and the metrics of these.
pub mod Models
pub mod Rules
pub mod Store
pub mod Enrich
pub mod Detect
pub mod Service
pub mod Metrics
