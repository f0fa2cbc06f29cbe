-- ===== src/Midi/Event.antt =====
-- src/grandorgue/midi/events/GOMidiEvent.h and the constructor and `SetString` of GOMidiEvent.cpp.
use grandorgue.Prelude.{
  ℕ, ◌-◌, Bool, true, List, [], ◌++◌, length, take, replicate, ltb, ◌==◌, if◌then◌else◌,
}
use grandorgue.Prelude.Int.{ℤ, negsuc}
use grandorgue.Midi.NameMap.{Name}

pub data MidiType : Type 0 where
  midi_none midi_reset midi_note midi_aftertouch midi_ctrl_change midi_pgm_change : MidiType
  midi_rpn midi_nrpn midi_sysex_johannus_9 midi_sysex_johannus_11 : MidiType
  midi_sysex_viscount midi_sysex_ahlborn_galanti midi_sysex_go_clear : MidiType
  midi_sysex_go_setup midi_sysex_go_sampleset midi_sysex_hw_string : MidiType
  midi_sysex_hw_lcd midi_sysex_rodgers_stop_change : MidiType

-- The value of the enumerator, for tests of equality.
abbrev pub type_code : MidiType → ℕ
type_code midi_none = 0
type_code midi_reset = 1
type_code midi_note = 2
type_code midi_aftertouch = 3
type_code midi_ctrl_change = 4
type_code midi_pgm_change = 5
type_code midi_rpn = 6
type_code midi_nrpn = 7
type_code midi_sysex_johannus_9 = 8
type_code midi_sysex_johannus_11 = 9
type_code midi_sysex_viscount = 10
type_code midi_sysex_ahlborn_galanti = 11
type_code midi_sysex_go_clear = 12
type_code midi_sysex_go_setup = 13
type_code midi_sysex_go_sampleset = 14
type_code midi_sysex_hw_string = 15
type_code midi_sysex_hw_lcd = 16
type_code midi_sysex_rodgers_stop_change = 17

abbrev pub same_type : MidiType → MidiType → Bool
same_type a b = type_code a == type_code b

-- The getters and setters are the fields.
pub record Event : Type 0 where
  pub midi_type : MidiType
  pub channel : ℤ
  pub key : ℤ
  pub value : ℤ
  pub device : ℕ
  pub time : ℕ
  pub string : Name
  pub bytes : List ℕ  -- m_data
  pub is_to_use_note_off : Bool
  pub is_allowed_to_reload : Bool

abbrev pub minus_one : ℤ
minus_one = negsuc 0

-- `m_device` is not initialised: it is whatever the memory held.
unfoldable pub new_event : ℕ → Event
new_event device = record {
  midi_type = midi_none;
  channel = minus_one;
  key = minus_one;
  value = minus_one;
  device = device;
  time = 0;
  string = [];
  bytes = [];
  is_to_use_note_off = true;
  is_allowed_to_reload = true;
}

-- `SetString` with a length cuts the text or pads it with spaces on the right.
unfoldable pub fit_string : Name → ℕ → Name
fit_string str len =
    if ltb (length str) len
    then str ++ replicate (len - length str) b' '
    else if length str == len
    then str
    else take len str

unfoldable pub set_string : Event → Name → ℕ → Event
set_string e str len = record e { string = fit_string str len }

-- The controller numbers of GOMidiEvent.h.
abbrev pub ctrl_bank_select_msb : ℕ
ctrl_bank_select_msb = 0

abbrev pub ctrl_bank_select_lsb : ℕ
ctrl_bank_select_lsb = 32

abbrev pub ctrl_rpn_msb : ℕ
ctrl_rpn_msb = 101

abbrev pub ctrl_rpn_lsb : ℕ
ctrl_rpn_lsb = 100

abbrev pub ctrl_nrpn_msb : ℕ
ctrl_nrpn_msb = 99

abbrev pub ctrl_nrpn_lsb : ℕ
ctrl_nrpn_lsb = 98

abbrev pub ctrl_data_entry : ℕ
ctrl_data_entry = 6
