-- ===== src/Document.antt =====
-- Markdown artifacts as the scanners of cypilot/.core/skills/cypilot/scripts/cypilot/utils/document.py
-- read them: `Patterns` has its regular expressions, `Ids` is `scan_cpt_ids`, `Outline`
-- `headings_by_line`, `Steps` `scan_cdsl_instructions` and `Content` `get_content_scoped`. The lines
-- that `read_text_safe` gives are an argument, `none` where it gives none.
pub mod Patterns
pub mod Ids
pub mod Outline
pub mod Steps
pub mod Content
mod Tests
