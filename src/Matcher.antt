-- ===== src/Matcher.antt =====
-- internal/matcher: the release directory of a remote file name.
pub mod Path
pub mod Bytes
