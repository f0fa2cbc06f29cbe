-- ===== src/Midi.antt =====
-- The MIDI layer: src/core/GONameMap.* and src/grandorgue/midi.
pub mod NameMap
pub mod Event
pub mod Rodgers
pub mod Message
pub mod Receive
pub mod Send
pub mod InputMerger
pub mod OutputMerger
pub mod Ports
pub mod RoundTrip
pub mod MessageType
pub mod Pattern
pub mod Matcher
pub mod PlayerContent
