-- ===== src/Database.antt =====
-- src/personal_voice_msg/database.py: the operational state in SQLite, one module for each group
-- of methods, and the modules of their proofs.
pub mod States
pub mod Schema
pub mod RecipientKey
pub mod Messages
pub mod Deliveries
pub mod DeliveryReads
pub mod Control
pub mod DailyRuns
pub mod Views
