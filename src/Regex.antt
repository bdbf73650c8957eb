-- ===== src/Regex.antt =====
-- The part of Python's `re` that the program uses, as a backtracking matcher over code points.
-- A match is searched as `re` does it: alternatives from the left, a greedy repetition from the
-- longest, a lazy one from the shortest, so the first of the listed matches is the one that `re`
-- finds. Repetitions are of one character class, as in each pattern of the program.
mod Defs
pub mod Laws
pub mod Captures
pub mod Classes
pub use Defs.{Regex, chr, lit, seq, alt, group, rep, not_ahead, eos, Match}
pub use Defs.{char_in, plus, star, plus_lazy, between, at_least, captured}
unfoldable pub use Defs.{match_all, match_start, finditer, finditer_from, sub, sub_from, fullmatch}
unfoldable pub use Defs.{run_length}
