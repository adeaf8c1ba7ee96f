-- ===== src/Media.antt =====
-- include/media and src/media.
pub mod Prop
pub mod Save
