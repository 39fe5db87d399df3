-- ===== src/Dashboard.antt =====
-- The web client: apps/dashboard-frontend/src/app.
pub mod VaultStore
