-- ===== src/Midi/Send.antt =====
-- GOMidiEvent::ToMidi of src/grandorgue/midi/events/GOMidiEvent.cpp: the MIDI messages, lists of
-- bytes, for an event.
use grandorgue.Prelude.{
  ℕ, zero, suc, ◌+◌, ◌-◌, ◌&&◌, List, [], ◌∷◌, ◌++◌, length, get_or, replicate, min, bit_or,
  if◌then◌else◌,
}
use grandorgue.Prelude.Int.{ℤ, pos, ◌-ℤ◌, eq_ℤ, int_bits, int_shr}
use grandorgue.Prelude.Bits.{low_bits}
use grandorgue.Midi.NameMap.{MidiMap, get_recorder_element_name_by_id}
use grandorgue.Midi.Event.{
  MidiType, midi_note, midi_ctrl_change, midi_pgm_change, midi_rpn, midi_nrpn, midi_sysex_go_clear,
  midi_sysex_go_setup, midi_sysex_go_sampleset, midi_sysex_hw_string, midi_sysex_hw_lcd,
  midi_sysex_rodgers_stop_change, Event, minus_one, ctrl_bank_select_msb, ctrl_bank_select_lsb,
  ctrl_rpn_msb, ctrl_rpn_lsb, ctrl_nrpn_msb, ctrl_nrpn_lsb, ctrl_data_entry,
}
use grandorgue.Midi.Rodgers.{checksum}
use grandorgue.Midi.Receive.{Ascii}

abbrev pub Messages : Type 0
Messages = List (List ℕ)

-- (z >> shift) & 0x7F.
abbrev pub seven_of : ℤ → ℕ → ℕ
seven_of z shift = int_bits (int_shr z shift) 7

-- The status byte: m[0] = status; m[0] |= (GetChannel() - 1) & 0x0F.
abbrev pub on_channel : ℕ → ℤ → ℕ
on_channel status channel = bit_or status (int_bits (channel -ℤ pos 1) 4)

unfoldable pub control_change : ℤ → ℕ → ℕ → List ℕ
control_change channel controller value =
    on_channel 0xB0 channel ∷ low_bits controller 7 ∷ value ∷ []

unfoldable pub send_note : Event → List ℕ
send_note e =
    on_channel (if eq_ℤ e.value (pos 0) && e.is_to_use_note_off then 0x80 else 0x90) e.channel
    ∷ seven_of e.key 0
    ∷ seven_of e.value 0
    ∷ []

unfoldable pub send_pgm_change : Event → Messages
unfolding control_change
send_pgm_change e =
    let program = e.key -ℤ pos 1 in
    control_change e.channel ctrl_bank_select_msb (seven_of program 14)
    ∷ control_change e.channel ctrl_bank_select_lsb (seven_of program 7)
    ∷ (on_channel 0xC0 e.channel ∷ seven_of program 0 ∷ [])
    ∷ []

-- A parameter number, registered or not, and its value.
unfoldable pub send_parameter : ℕ → ℕ → Event → Messages
unfolding control_change
send_parameter msb lsb e =
    control_change e.channel msb (seven_of e.key 7)
    ∷ control_change e.channel lsb (seven_of e.key 0)
    ∷ control_change e.channel ctrl_data_entry (seven_of e.value 0)
    ∷ []

unfoldable pub send_sampleset : Event → List ℕ
send_sampleset e =
    0xF0
    ∷ 0x7D
    ∷ 0x47
    ∷ 0x4F
    ∷ 0x01
    ∷ seven_of e.key 24
    ∷ seven_of e.key 16
    ∷ seven_of e.key 8
    ∷ seven_of e.key 0
    ∷ seven_of e.value 24
    ∷ seven_of e.value 16
    ∷ seven_of e.value 8
    ∷ seven_of e.value 0
    ∷ 0xF7
    ∷ []

-- b[i] & 0x7F for `n` bytes from i on.
unfoldable pub seven_bit_text : List ℕ → ℕ → ℕ → List ℕ
seven_bit_text b i zero = []
seven_bit_text b i (suc n) = low_bits (get_or b i 0) 7 ∷ seven_bit_text b (suc i) n

-- The text in a field of fixed width: cut, or filled up with spaces.
unfoldable pub text_field : List ℕ → ℕ → ℕ → List ℕ
unfolding seven_bit_text
text_field b len width =
    let used = min len width in seven_bit_text b 0 used ++ replicate (width - used) b' '

unfoldable pub send_setup : Ascii → MidiMap → Event → List ℕ
unfolding seven_bit_text
send_setup wx map e =
    let s = get_recorder_element_name_by_id map e.key in
    0xF0
    ∷ 0x7D
    ∷ 0x47
    ∷ 0x4F
    ∷ bit_or 0x10 (int_bits (e.channel -ℤ pos 1) 4)
    ∷ seven_of e.value 7
    ∷ seven_of e.value 0
    ∷ (seven_bit_text (wx.to_ascii s) 0 (length s) ++ 0xF7 ∷ [])

unfoldable pub send_hw_string : Ascii → Event → List ℕ
unfolding text_field
send_hw_string wx e =
    0xF0
    ∷ 0x7D
    ∷ 0x19
    ∷ seven_of e.key 0
    ∷ (text_field (wx.to_ascii e.string) (length e.string) 16 ++ 0xF7 ∷ [])

unfoldable pub send_hw_lcd : Ascii → Event → List ℕ
unfolding text_field
send_hw_lcd wx e =
    0xF0
    ∷ 0x7D
    ∷ 0x01
    ∷ seven_of e.key 7
    ∷ seven_of e.key 0
    ∷ seven_of e.channel 0
    ∷ (text_field (wx.to_ascii e.string) (length e.string) 32 ++ 0xF7 ∷ [])

-- The checksum is taken over the message as far as it is written.
unfoldable pub send_rodgers : Event → List ℕ
send_rodgers e =
    let head =
      0xF0 ∷ 0x41 ∷ seven_of e.channel 0 ∷ 0x30 ∷ 0x12 ∷ 0x01 ∷ seven_of e.key 0 ∷ e.bytes in
    head ++ checksum head 5 (length e.bytes + 2) ∷ 0xF7 ∷ []

-- The switch. Without a channel an event on a channel is not sent.
unfoldable pub to_midi_of : Ascii → MidiMap → MidiType → Event → Messages
to_midi_of wx map midi_note e = if eq_ℤ e.channel minus_one then [] else send_note e ∷ []
to_midi_of wx map midi_ctrl_change e =
    if eq_ℤ e.channel minus_one
    then []
    else (on_channel 0xB0 e.channel ∷ seven_of e.key 0 ∷ seven_of e.value 0 ∷ []) ∷ []
to_midi_of wx map midi_pgm_change e = if eq_ℤ e.channel minus_one then [] else send_pgm_change e
to_midi_of wx map midi_rpn e =
    if eq_ℤ e.channel minus_one then [] else send_parameter ctrl_rpn_msb ctrl_rpn_lsb e
to_midi_of wx map midi_nrpn e =
    if eq_ℤ e.channel minus_one then [] else send_parameter ctrl_nrpn_msb ctrl_nrpn_lsb e
to_midi_of wx map midi_sysex_go_clear e = (0xF0 ∷ 0x7D ∷ 0x47 ∷ 0x4F ∷ 0x00 ∷ 0xF7 ∷ []) ∷ []
to_midi_of wx map midi_sysex_go_sampleset e = send_sampleset e ∷ []
to_midi_of wx map midi_sysex_go_setup e = send_setup wx map e ∷ []
to_midi_of wx map midi_sysex_hw_string e = send_hw_string wx e ∷ []
to_midi_of wx map midi_sysex_hw_lcd e = send_hw_lcd wx e ∷ []
to_midi_of wx map midi_sysex_rodgers_stop_change e = send_rodgers e ∷ []
to_midi_of wx map _ e = []

unfoldable pub to_midi : Ascii → MidiMap → Event → Messages
unfolding to_midi_of
to_midi wx map e = to_midi_of wx map e.midi_type e
