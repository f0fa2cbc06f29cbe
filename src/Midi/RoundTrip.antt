-- ===== src/Midi/RoundTrip.antt =====
-- What GOMidiEvent::ToMidi sends, GOMidiEvent::FromMidi and the mergers read back.
pub mod Channel
pub mod Merged
pub mod Program
pub mod Parameter
pub mod Reads
pub mod Plain
pub mod Safety
