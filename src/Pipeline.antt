-- ===== src/Pipeline.antt =====
-- internal/pipeline: what one tick of a module makes of a job.
pub mod Backoff
pub mod Paths
pub mod Dedup
pub mod World
pub mod TopUp
pub mod Quarantine
pub mod Selecting
pub mod Downloading
pub mod Importing
pub mod Moves
pub mod TickTests
pub mod FileTests
pub mod ImportTests
pub mod Tests
