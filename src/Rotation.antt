-- ===== src/Rotation.antt =====
-- Master-key rotation: apps/api/src/lib/key-rotation.ts. A table is the list of its rows in the
-- order of the primary key; an SQL statement is the list function that it denotes, and a D1 batch
-- is the composition of its statements. Versions `vN` are the numbers N.
pub mod State
pub mod Batch
pub mod Drive
pub mod Tick
pub mod Preserve
pub mod Readable
pub mod Complete
pub mod Tests
