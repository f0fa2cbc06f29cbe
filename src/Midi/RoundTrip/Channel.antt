-- ===== src/Midi/RoundTrip/Channel.antt =====
-- Notes and control changes.
use grandorgue.Prelude.{
  ℕ, ◌+◌, ◌-◌, ◌*◌, ◌≤◌, ◌<◌, ◌≡◌, ◌⊎◌, inl, inr, ◌&&◌, some, List, [], ◌∷◌, arith, ◌==◌,
  if◌then◌else◌,
}
use grandorgue.Prelude.Int.{ℤ, pos, ◌-ℤ◌, int_bits}
use grandorgue.Prelude.Bits.{bit_or_high_low}
use grandorgue.Midi.NameMap.{MidiMap}
use grandorgue.Midi.Event.{MidiType, midi_note, midi_ctrl_change, Event}
use grandorgue.Midi.Receive.{Ascii, Received, cleared, from_midi, channel_message}
use grandorgue.Midi.Send.{to_midi, send_note, on_channel}

-- The fields of an event on a channel, in the ranges of a MIDI message.
pub record IsOnChannel (e : Event) (channel key value : ℕ) : Type 0 where
  pub channel_eq : e.channel ≡ pos channel
  pub key_eq : e.key ≡ pos key
  pub value_eq : e.value ≡ pos value
  pub channel_pos : 0 < channel
  pub channel_le : channel ≤ 16
  pub key_lt : key < 128
  pub value_lt : value < 128

pub on_channel-eq :
    (q channel : ℕ)
    → 0 < channel
    → channel ≤ 16
    → on_channel (q * 16) (pos channel) ≡ q * 16 + (channel - 1)
on_channel-eq q channel h k =
    let e : int_bits (pos channel -ℤ pos 1) 4 ≡ channel - 1 = ground arith in
    rw e (bit_or_high_low 4 q (channel - 1) (omega arith))

-- Three bytes with a status of upper half q.
abbrev pub message : ℕ → ℕ → ℕ → ℕ → List ℕ
message q channel key value = (q * 16 + (channel - 1)) ∷ key ∷ value ∷ []

-- The event e after it has heard a message on a channel.
abbrev pub heard : Ascii → MidiMap → Event → MidiType → ℕ → ℤ → ℤ → Received
heard wx map e t channel key value =
    some (
      record (cleared wx e) { midi_type = t; channel = pos channel; key = key; value = value },
      map,
    )

module _ (wx : Ascii) (map : MidiMap) (e : Event) (channel key value : ℕ) (h : 0 < channel)
    (k : channel ≤ 16) (key_lt : key < 128) (value_lt : value < 128) where
  hears_note_on :
      from_midi wx (message 9 channel key value) map e
      ≡ heard wx map e midi_note channel (pos key) (pos value)
  unfolding from_midi channel_message
  hears_note_on = ground arith

  hears_note_off :
      from_midi wx (message 8 channel key value) map e
      ≡ heard wx map e midi_note channel (pos key) (pos 0)
  unfolding from_midi channel_message
  hears_note_off = ground arith

  pub hears_control :
      from_midi wx (message 11 channel key value) map e
      ≡ heard wx map e midi_ctrl_change channel (pos key) (pos value)
  unfolding from_midi channel_message
  hears_control = ground arith

module _ (wx : Ascii) (map : MidiMap) (e : Event) (channel key value : ℕ)
    (f : IsOnChannel e channel key value) where
  open f use {channel_eq, key_eq, value_eq, channel_pos, channel_le, key_lt, value_lt}

  abbrev note_status : ℕ
  note_status = if value == 0 && e.is_to_use_note_off then 8 else 9

  sends_note :
      e.midi_type ≡ midi_note → to_midi wx map e ≡ message note_status channel key value ∷ []
  unfolding to_midi send_note
  sends_note t = ground (
    arith,
    on_channel-eq 8 channel channel_pos channel_le,
    on_channel-eq 9 channel channel_pos channel_le,
  )

  pub sends_control :
      e.midi_type ≡ midi_ctrl_change → to_midi wx map e ≡ message 11 channel key value ∷ []
  unfolding to_midi
  sends_control t = ground (arith, on_channel-eq 11 channel channel_pos channel_le)

  hears_note :
      (e' : Event)
      → from_midi wx (message note_status channel key value) map e'
        ≡ heard wx map e' midi_note channel (pos key) (pos value)
  hears_note e' = ground (
    arith,
    hears_note_on wx map e' channel key value channel_pos channel_le key_lt value_lt,
    hears_note_off wx map e' channel key value channel_pos channel_le key_lt value_lt,
  )

-- A note or a control change with its fields in range is sent as one message. Whatever event hears
-- that message gets the type, the channel, the key and the value that were sent.
pub from_midi-to_midi :
    (wx : Ascii) (map : MidiMap) (e e' : Event) (channel key value : ℕ)
    → (e.midi_type ≡ midi_note) ⊎ (e.midi_type ≡ midi_ctrl_change)
    → IsOnChannel e channel key value
    → (m : List ℕ) × (to_midi wx map e ≡ m ∷ [])
      × (from_midi wx m map e' ≡ heard wx map e' e.midi_type channel e.key e.value)
from_midi-to_midi wx map e e' channel key value (inl t) f = (
  message (note_status wx map e channel key value f) channel key value,
  sends_note wx map e channel key value f t,
  rw (t, f.key_eq, f.value_eq) (hears_note wx map e channel key value f e'),
)
from_midi-to_midi wx map e e' channel key value (inr t) f = (
  message 11 channel key value,
  sends_control wx map e channel key value f t,
  rw (t, f.key_eq, f.value_eq)
      (hears_control wx map e' channel key value f.channel_pos f.channel_le f.key_lt f.value_lt),
)
