-- ===== src/Store.antt =====
-- internal/store: the tables, and one function for each operation that reads or writes them.
pub mod Table
pub mod Db
pub mod Jobs
pub mod Rejections
pub mod Format
pub mod Candidates
pub mod Activation
pub mod Retry
pub mod Transfers
pub mod Wanted
pub mod Folders
pub mod Operation
pub mod Integrity
pub mod LiveOwner
pub mod Tests
pub mod Erasure
pub mod Barrier
