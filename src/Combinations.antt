-- ===== src/Combinations.antt =====
-- GOCombination of src/grandorgue/combinations/model and GODrawstop of src/grandorgue/model: what a
-- combination remembers of the drawstops, and how drawstops follow it and each other.
pub mod Combination
pub mod Drawstop
