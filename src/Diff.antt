-- ===== src/Diff.antt =====
-- Updating an installed kit file by file: the engine of
-- cypilot/.core/skills/cypilot/scripts/cypilot/utils/diff_engine.py, a module for each of its parts.
pub mod Codec
pub mod Display
pub mod Merge
pub mod Classify
pub mod Prompt
pub mod StripToc
pub mod Review
pub mod Update
mod Tests
