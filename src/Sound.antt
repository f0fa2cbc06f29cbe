-- ===== src/Sound.antt =====
-- The sound engine's part that mixes samplers: src/grandorgue/sound/tasks and
-- src/grandorgue/sound/playing.
pub mod SamplerList
pub mod Cell
pub mod Round
pub mod Dropping
