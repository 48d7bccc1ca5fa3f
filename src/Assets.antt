-- ===== src/Assets.antt =====
-- The asset pages of the internal client, web/internal/src/components/assets.
pub mod Import
pub mod Bulk
pub mod Catalog
pub mod Checkout
pub mod Listing
pub mod List
pub mod Form
pub mod Detail
pub mod Audit
pub mod Analytics
