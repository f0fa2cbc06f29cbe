-- ===== src/Midi/Matcher/Answer.antt =====
-- src/grandorgue/midi/elements/GOMidiReceiver.cpp, `Match`: what one pattern makes of an event, for a
-- receiver that is not a manual's. Each test of the code names one type of pattern, so they stand
-- here by that type, in the code's order where several name the same.
use grandorgue.Prelude.{◌^◌, Bool, ◌&&◌, ◌||◌, Option, none, some, bit_and, ◌==◌, if◌then◌else◌}
use grandorgue.Prelude.Int.{ℤ, pos_part, leb_ℤ, eq_ℤ, to_u32}
use grandorgue.Midi.Event.{
  Event, MidiType, same_type, midi_note, midi_ctrl_change, midi_pgm_change, midi_rpn, midi_nrpn,
  midi_sysex_johannus_9, midi_sysex_johannus_11, midi_sysex_viscount, midi_sysex_ahlborn_galanti,
  midi_sysex_rodgers_stop_change,
}
use grandorgue.Midi.Rodgers.{BitState, bit_clear, bit_set, bit_not_present, get_bit}
use grandorgue.Midi.MessageType.{
  MessageType, MatchType, match_on, match_off, match_change, m_note, m_ctrl_change, m_pgm_change,
  m_pgm_range, m_sysex_johannus_9, m_sysex_johannus_11, m_sysex_viscount, m_sysex_viscount_toggle,
  m_sysex_rodgers_stop_change, m_sysex_ahlborn_galanti, m_sysex_ahlborn_galanti_toggle, m_ctrl_bit,
  m_ctrl_change_fixed, m_rpn, m_nrpn, m_rpn_range, m_nrpn_range, m_note_on, m_note_off,
  m_note_on_off, m_note_fixed_on, m_note_fixed_off, m_ctrl_change_on, m_ctrl_change_off,
  m_ctrl_change_on_off, m_ctrl_change_fixed_on, m_ctrl_change_fixed_off, m_ctrl_change_fixed_on_off,
  m_rpn_on, m_rpn_off, m_rpn_on_off, m_nrpn_on, m_nrpn_off, m_nrpn_on_off,
}
use grandorgue.Midi.Pattern.{Pattern, convert_src_value_to_int}

-- Go on to the next pattern, answer at once, or answer unless it is too soon after the last answer.
pub data Outcome : Type 0 where
  next : Outcome
  now debounced : MatchType → Outcome

-- The event has the type and the pattern's key.
abbrev pub hears : MidiType → Event → Pattern → Bool
hears t e p = same_type e.midi_type t && eq_ℤ p.key e.key

abbrev pub settle : (MatchType → Outcome) → Option MatchType → Outcome
settle answer none = next
settle answer (some m) = answer m

-- Off up to the lower value and on from the upper one, or the other way round.
unfoldable pub range_answer : Pattern → ℤ → Option MatchType
range_answer p v =
    if leb_ℤ p.low_value p.high_value
    then (if leb_ℤ v p.low_value
        then some match_off
        else if leb_ℤ p.high_value v
        then some match_on
        else none)
    else if leb_ℤ p.low_value v
    then some match_off
    else if leb_ℤ v p.high_value
    then some match_on
    else none

-- A change from the upper value on, up to the lower value, or both.
abbrev pub change_on : MidiType → Event → Pattern → Outcome
change_on t e p = if hears t e p && leb_ℤ p.high_value e.value then debounced match_change else next

abbrev pub change_off : MidiType → Event → Pattern → Outcome
change_off t e p = if hears t e p && leb_ℤ e.value p.low_value then debounced match_change else next

abbrev pub change_on_off : MidiType → Event → Pattern → Outcome
change_on_off t e p =
    if hears t e p && leb_ℤ p.high_value e.value then debounced match_change else change_off t e p

abbrev pub fixed_on : MidiType → Event → Pattern → Outcome
fixed_on t e p = if hears t e p && eq_ℤ e.value p.high_value then debounced match_on else next

abbrev pub fixed_off : MidiType → Event → Pattern → Outcome
fixed_off t e p = if hears t e p && eq_ℤ e.value p.low_value then debounced match_off else next

-- Two values of the event, or two numbers, that stand for off and on.
abbrev pub two_values : (MatchType → Outcome) → MatchType → MatchType → Bool → Bool → Outcome
two_values answer low high is_low is_high =
    if is_low then answer low else if is_high then answer high else next

abbrev pub bit_answer : BitState → Outcome
bit_answer bit_clear = now match_off
bit_answer bit_set = now match_on
bit_answer bit_not_present = next

unfoldable pub button_answer : MessageType → Event → Pattern → Outcome
button_answer m_note e p = if hears midi_note e p then settle now (range_answer p e.value) else next
button_answer m_note_on e p = change_on midi_note e p
button_answer m_note_off e p = change_off midi_note e p
button_answer m_note_on_off e p = change_on_off midi_note e p
button_answer m_ctrl_change e p =
    if hears midi_ctrl_change e p then settle debounced (range_answer p e.value) else next
button_answer m_ctrl_change_on e p = change_on midi_ctrl_change e p
button_answer m_ctrl_change_off e p = change_off midi_ctrl_change e p
button_answer m_ctrl_change_on_off e p = change_on_off midi_ctrl_change e p
button_answer m_ctrl_change_fixed e p =
    if hears midi_ctrl_change e p
    then two_values debounced match_off match_on (eq_ℤ e.value p.low_value)
        (eq_ℤ e.value p.high_value)
    else next
button_answer m_ctrl_change_fixed_on e p = fixed_on midi_ctrl_change e p
button_answer m_note_fixed_on e p = fixed_on midi_note e p
button_answer m_ctrl_change_fixed_off e p = fixed_off midi_ctrl_change e p
button_answer m_note_fixed_off e p = fixed_off midi_note e p
button_answer m_ctrl_change_fixed_on_off e p =
    if hears midi_ctrl_change e p
    then two_values debounced match_change match_change (eq_ℤ e.value p.high_value)
        (eq_ℤ e.value p.low_value)
    else next
button_answer m_ctrl_bit e p =
    if hears midi_ctrl_change e p
    then (if bit_and (to_u32 e.value) (2 ^ pos_part p.low_value) == 0
        then debounced match_off
        else debounced match_on)
    else next
button_answer m_rpn e p = if hears midi_rpn e p then settle now (range_answer p e.value) else next
button_answer m_rpn_on e p = change_on midi_rpn e p
button_answer m_rpn_off e p = change_off midi_rpn e p
button_answer m_rpn_on_off e p = change_on_off midi_rpn e p
button_answer m_nrpn e p = if hears midi_nrpn e p then settle now (range_answer p e.value) else next
button_answer m_nrpn_on e p = change_on midi_nrpn e p
button_answer m_nrpn_off e p = change_off midi_nrpn e p
button_answer m_nrpn_on_off e p = change_on_off midi_nrpn e p
button_answer m_pgm_change e p = if hears midi_pgm_change e p then debounced match_change else next
button_answer m_pgm_range e p =
    if same_type e.midi_type midi_pgm_change
    then two_values now match_off match_on (eq_ℤ p.low_value e.key) (eq_ℤ p.high_value e.key)
    else next
button_answer m_sysex_johannus_9 e p =
    if hears midi_sysex_johannus_9 e p then debounced match_change else next
button_answer m_sysex_johannus_11 e p =
    if hears midi_sysex_johannus_11 e p && leb_ℤ p.low_value e.value && leb_ℤ e.value p.high_value
    then debounced match_change
    else next
button_answer m_rpn_range e p =
    if same_type e.midi_type midi_rpn && eq_ℤ p.key e.value
    then two_values now match_off match_on (eq_ℤ p.low_value e.key) (eq_ℤ p.high_value e.key)
    else next
button_answer m_nrpn_range e p =
    if same_type e.midi_type midi_nrpn && eq_ℤ p.key e.value
    then two_values now match_off match_on (eq_ℤ p.low_value e.key) (eq_ℤ p.high_value e.key)
    else next
button_answer m_sysex_viscount e p =
    if same_type e.midi_type midi_sysex_viscount
    then two_values now match_off match_on (eq_ℤ p.low_value e.value) (eq_ℤ p.high_value e.value)
    else next
button_answer m_sysex_viscount_toggle e p =
    if same_type e.midi_type midi_sysex_viscount && eq_ℤ p.low_value e.value
    then debounced match_change
    else next
button_answer m_sysex_rodgers_stop_change e p =
    if same_type e.midi_type midi_sysex_rodgers_stop_change && eq_ℤ p.key e.channel
    then bit_answer (get_bit (to_u32 p.low_value) (to_u32 e.key) e.bytes)
    else next
button_answer m_sysex_ahlborn_galanti e p =
    if same_type e.midi_type midi_sysex_ahlborn_galanti
    then two_values now match_off match_on (eq_ℤ p.low_value e.value) (eq_ℤ p.high_value e.value)
    else next
button_answer m_sysex_ahlborn_galanti_toggle e p =
    if same_type e.midi_type midi_sysex_ahlborn_galanti
    then two_values debounced match_change match_change (eq_ℤ p.low_value e.value)
        (eq_ℤ p.high_value e.value)
    else next
button_answer _ e p = next

-- The position that an enclosure is to take.
unfoldable pub enclosure_answer : MessageType → Event → Pattern → Option ℤ
enclosure_answer m_ctrl_change e p =
    if hears midi_ctrl_change e p then some (convert_src_value_to_int p e.value) else none
enclosure_answer m_rpn e p =
    if hears midi_rpn e p then some (convert_src_value_to_int p e.value) else none
enclosure_answer m_nrpn e p =
    if hears midi_nrpn e p then some (convert_src_value_to_int p e.value) else none
enclosure_answer m_pgm_range e p =
    if same_type e.midi_type midi_pgm_change
      && ((leb_ℤ p.low_value e.key && leb_ℤ e.key p.high_value)
          || (leb_ℤ p.high_value e.key && leb_ℤ e.key p.low_value))
    then some (convert_src_value_to_int p e.value)
    else none
enclosure_answer _ e p = none
