-- ===== src/Sync.antt =====
-- The sync engine: apps/api/src/integrations/sync-engine.ts. Names, values and fingerprints are
-- texts; secret names, ledger names and names on the target are lists without repetition.
pub mod Names
pub mod Plan
pub mod Decide
pub mod Lookup
pub mod Classify
pub mod Execute
pub mod Push
pub mod Run
pub mod Rows
pub mod Ledger
pub mod Sent
pub mod Forgotten
pub mod Counts
pub mod Success
pub mod Retry
pub mod Tests
