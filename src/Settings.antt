-- ===== src/Settings.antt =====
-- The settings pages of the administration, web/internal/src/components/admin.
pub mod Storage
pub mod Mail
pub mod Inputs
pub mod Overview
