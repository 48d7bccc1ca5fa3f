-- ===== src/Tickets.antt =====
-- Tickets: how the three forms create one, and the pages of one ticket with its attachments.
pub mod Create
pub mod CreateLaws
pub mod Search
pub mod Form
pub mod Attachments
pub mod Detail
pub mod Reader
