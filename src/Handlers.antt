-- ===== src/Handlers.antt =====
-- The crawler's handlers (textlake/handlers): from the bodies that MoltBook sends to upserts, tasks and
-- snapshots in one transaction.
pub mod Stubs
pub mod Store
pub mod PostComments
pub mod Posts
pub mod Submolts
pub mod Parents
pub mod Settled
pub mod Authors
