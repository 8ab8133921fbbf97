-- ===== src/Database.antt =====
-- The start-up of the database (meritmolt/database.py): splitting SQL into statements, and
-- meritrank_bulk_init with its retries.
pub mod Splitter
pub mod Startup
