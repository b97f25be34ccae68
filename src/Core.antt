-- ===== src/Core.antt =====
-- internal/core: the domain types shared by the store, the pipeline and the peer client.
pub mod State
pub mod Models
