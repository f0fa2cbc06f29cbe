-- ===== src/Examples.antt =====
-- Tests of the definitions on concrete inputs, and the theorems applied to concrete inputs.
mod Scheduling
mod Messages
mod Rounds
mod Registration
mod Circling
mod Coupling
mod Filing
mod Playing
mod Matching
