-- ===== src/Codebase.antt =====
-- Traceability markers in code files, as
-- cypilot/.core/skills/cypilot/scripts/cypilot/utils/codebase.py scans, queries and validates them:
-- `Data` is the data model, `Problems` the errors of the scanner, `Scan` the scanner,
-- `Keys` and `Pairing` the markers against its open blocks and what it makes of them, `Query` the
-- methods of a scanned file, `Cross` the cross validation.
pub mod Data
pub mod Problems
pub mod Scan
mod Tests
mod Accounting
pub mod Balance
pub mod Blocks
pub mod Filled
pub mod Query
mod Keys
mod Pairing
pub mod Paired
pub mod Cross
