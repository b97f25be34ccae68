-- ===== src/Soulseek.antt =====
-- internal/soulseek: the native Soulseek client.
pub mod Uploads
pub mod Tests
