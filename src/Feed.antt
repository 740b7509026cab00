-- ===== src/Feed.antt =====
-- internal/feed.
pub mod Taxonomy
pub mod Base64
pub mod Cursor
pub mod Read
pub mod Examples
