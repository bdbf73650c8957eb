-- ===== src/Document/Content.antt =====
-- `get_content_scoped` of document.py: the part of an artifact that stands under an id.
pub mod Names
pub mod Emit
pub mod Excerpt
pub mod Search
pub mod Blocks
pub mod Ranges
