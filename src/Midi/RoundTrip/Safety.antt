-- ===== src/Midi/RoundTrip/Safety.antt =====
-- Which messages FromMidi cannot cope with, and that its events are safe for the merger.
use grandorgue.Prelude.{
  ℕ, ◌+◌, ◌-◌, ◌/◌, ◌≤◌, ◌<◌, ◌≡◌, ◌≢◌, ◌⊎◌, inl, inr, true, false, none, some, List, arith, length,
  Bool-cases,
}
use grandorgue.Prelude.Bits.{low_bits}
use grandorgue.Prelude.Int.{ℤ, pos}
use grandorgue.Midi.NameMap.{MidiMap}
use grandorgue.Midi.Event.{midi_ctrl_change, midi_pgm_change, Event}
use grandorgue.Midi.Message.{byte_at, is_grandorgue}
use grandorgue.Midi.Receive.{Ascii, cleared, from_midi, receive_sysex, channel_message}
use grandorgue.Midi.RoundTrip.Plain.{IsPlain, cleared-IsPlain, sysex-IsPlain}
use grandorgue.Midi.InputMerger.{Merger, process, uses_channel, channel_index}

-- A setup message of GrandOrgue that is too short to hold a name.
abbrev pub IsShortSetup : List ℕ → Type 0
IsShortSetup msg = (is_grandorgue msg ≡ some true) × (byte_at msg 4 / 16 ≡ 1) × (length msg < 8)

-- What the merger needs of an event: a channel from 1 to 16, if it uses one.
abbrev pub HasMergeableChannel : Event → Type 0
HasMergeableChannel e =
    (e.midi_type ≡ midi_ctrl_change) ⊎ (e.midi_type ≡ midi_pgm_change)
    → (n : ℕ) × (e.channel ≡ pos n) × (0 < n) × (n ≤ 16)

uses_channel-type :
    (e : Event)
    → uses_channel e ≡ true
    → (e.midi_type ≡ midi_ctrl_change) ⊎ (e.midi_type ≡ midi_pgm_change)
unfolding uses_channel
uses_channel-type e h = ground arith

channel_index-some : (c : ℤ) (n : ℕ) → c ≡ pos n → 0 < n → n ≤ 16 → channel_index c ≡ some (n - 1)
unfolding channel_index
channel_index-some c n e h k = rw e (ground arith)

process_some : (m : Merger) (e : Event) → HasMergeableChannel e → process m e ≢ none
unfolding process
process_some m e h k = elim (Bool-cases (uses_channel e)) [
  | inl u ↦
      let (n, c, low, high) = h (uses_channel-type e u) in
      process_indexed m e (n - 1) u (channel_index-some e.channel n c low high) k
  | inr u ↦ process_plain m e u k
]
  where
    process_indexed :
        (m : Merger) (e : Event) (i : ℕ)
        → uses_channel e ≡ true
        → channel_index e.channel ≡ some i
        → process m e ≢ none
    process_indexed m e i u c = rw (u, c, process) λ k. cc

    process_plain : (m : Merger) (e : Event) → uses_channel e ≡ false → process m e ≢ none
    process_plain m e u = rw (u, process) λ k. cc

module _ (wx : Ascii) (msg : List ℕ) (map map' : MidiMap) (e e' : Event) where
  cleared_sysex-IsPlain : receive_sysex wx msg map (cleared wx e) ≡ some (e', map') → IsPlain e'
  cleared_sysex-IsPlain = sysex-IsPlain wx msg map map' (cleared wx e) e' (cleared-IsPlain wx e)

  control_channel :
      e'.midi_type ≡ midi_ctrl_change
      → from_midi wx msg map e ≡ some (e', map')
      → e'.channel ≡ pos (low_bits (byte_at msg 0) 4 + 1)
  unfolding from_midi channel_message IsPlain
  control_channel t h = ground (arith, cleared_sysex-IsPlain)

  program_channel :
      e'.midi_type ≡ midi_pgm_change
      → from_midi wx msg map e ≡ some (e', map')
      → e'.channel ≡ pos (low_bits (byte_at msg 0) 4 + 1)
  unfolding from_midi channel_message IsPlain
  program_channel t h = ground (arith, cleared_sysex-IsPlain)

  hears_channel : from_midi wx msg map e ≡ some (e', map') → HasMergeableChannel e'
  hears_channel h t = (
    low_bits (byte_at msg 0) 4 + 1,
    elim t [ inl c ↦ control_channel c h | inr p ↦ program_channel p h ],
    ground arith,
    ground arith,
  )

  -- The merger reads and writes its arrays inside their bounds for every event that `FromMidi` gives.
  pub process-from_midi-ne-none :
      (m : Merger) → from_midi wx msg map e ≡ some (e', map') → process m e' ≢ none
  process-from_midi-ne-none m h = process_some m e' (hears_channel h)
