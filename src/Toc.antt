-- ===== src/Toc.antt =====
-- Tables of contents for Markdown files: the library
-- cypilot/.core/skills/cypilot/scripts/cypilot/utils/toc.py, a module for each of its parts.
pub mod Fence
pub mod Slug
pub mod Headings
pub mod Build
pub mod Lines
pub mod Markers
pub mod Section
pub mod Process
pub mod Validate
mod Tests
