-- ===== src/Offset.antt =====
-- internal/offset: the store of offset syncs, its reader and its writer.
pub mod Store
pub mod Reader
pub mod Writer
